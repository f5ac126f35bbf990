-- ===== src/Memstore/Batch.antt =====
-- engine/kernel/store/memstore/batch.go: a batch is the list of its operations; the value of a
-- deletion is nil. The slices that `Set` and `Delete` copy are values here.
use baud.Base.{Option, none, List, [], ◌∷◌, ◌++◌}
use baud.Base.Bytes.{Bytes}

pub record Operation (V : Type 0) : Type 0 where
  pub key : Bytes
  pub value : Option V

pub record Batch (V : Type 0) : Type 0 where
  pub ops : List (Operation V)

module _ {V : Type 0} where
  unfoldable pub new_batch : Batch V
  new_batch = record { ops = [] }

  unfoldable pub set : Bytes → Option V → Batch V → Batch V
  set key val b = record { ops = b.ops ++ (record { key = key; value = val } ∷ []) }

  unfoldable pub delete : Bytes → Batch V → Batch V
  delete key b = record { ops = b.ops ++ (record { key = key; value = none } ∷ []) }

  unfoldable pub operations : Batch V → List (Operation V)
  operations b = b.ops

  unfoldable pub reset : Batch V → Batch V
  reset b = record { ops = [] }
