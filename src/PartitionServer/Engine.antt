-- ===== src/PartitionServer/Engine.antt =====
-- engine/engine.go: what ps/server uses of an engine and its batches. A method gives the state after
-- it, also when it fails; an error is its text.
use baud.Base.{ℕ, Bool, Option, Result}
use baud.Base.Bytes.{Bytes}

pub record Engine (S B D : Type 0) : Type 0 where
  pub new_write_batch : S → B
  pub add_document : Bytes → D → B → Option Bytes × B
  pub update_document : Bytes → D → Bool → B → Result Bytes Bool × B
  pub delete_document : Bytes → B → Result Bytes ℕ × B
  pub set_batch_apply_id : ℕ → B → Option Bytes × B
  pub commit : B → S → Option Bytes × S
  pub set_apply_id : ℕ → S → Option Bytes × S
  pub get_document : Bytes → S → Option D
