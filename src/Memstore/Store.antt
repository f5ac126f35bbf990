-- ===== src/Memstore/Store.antt =====
-- engine/kernel/store/memstore/btreedb/store.go: the key-value store over the database.
-- A method of a nil `*Store` returns at once: the store is an option. The outer option of a result
-- is `none` where the call waits for the lock.
pub mod Map
pub mod Ops
pub mod Atomic
use baud.Base.{
  ℕ, Bool, true, false, Option, none, some, List, [], ◌∷◌, ◌++◌, Outcome, ret, panic, Result, ok,
  err,
}
use baud.Base.Bytes.{Bytes}
use baud.Memstore.Tree.{BTree}
use baud.Memstore.Db.{Error, Tx, Db, State, new_db_with_config, begin, close}
use baud.Memstore.Tx.{SetReply, set, get, delete, commit, rollback, update, view}
use baud.Memstore.Scan.{Slice, Matcher, Reply, IterFunc, ascend_keys, ascend_range}
use baud.Memstore.Batch.{Operation, Batch, operations}

module _ {V : Type 0} (bt : BTree V) where
  unfoldable pub new : Outcome (Result Error (Db bt))
  unfolding new_db_with_config
  new = new_db_with_config bt (some 10)

  -- What a call returns, and the store after it.
  abbrev pub Call : Type 0 → Type 0
  Call A = Option (Outcome A × Option (Db bt))

  -- The error of a call inside a transaction is the error of the transaction's function.
  abbrev pub error_of {ℓ} : {A : Type ℓ} → Outcome (Result Error A) → Outcome (Option Error)
  error_of (ret (ok a)) = ret none
  error_of (ret (err e)) = ret (some e)
  error_of panic = panic

  abbrev pub in_store : {A : Type 0} → Option (Outcome A × Db bt) → Call A
  in_store none = none
  in_store (some (r, db)) = some (r, some db)

  abbrev pub put_fn : Bytes → Option V → State bt → Outcome (Option Error) × State bt
  put_fn key value s = let r = set bt key value s in (error_of r.0, r.1)

  unfoldable pub put : Bytes → Option V → Option (Db bt) → Call (Option Error)
  put key value none = some (ret none, none)
  put key value (some db) = in_store (update bt (put_fn key value) db)

  -- `val` is a variable of `Get` that the function of the transaction assigns: the value that was
  -- read beside the error. The value of a failed read is nil.
  abbrev pub value_of_read : Outcome (Result Error (Option V)) → Option V
  value_of_read (ret (ok v)) = v
  value_of_read _ = none

  abbrev pub get_fn : Bytes → State bt → Outcome (Option Error) × State bt
  get_fn key s = (error_of (get bt key s), s)

  abbrev pub with_value :
      Option V → Option (Outcome (Option Error) × Db bt) → Call (Option V × Option Error)
  with_value v none = none
  with_value v (some (ret e, db)) = some (ret (v, e), some db)
  with_value v (some (panic, db)) = some (panic, some db)

  -- The state in which the function of `View` runs, if it runs.
  abbrev pub read_in : Bytes → Db bt → Option V
  read_in key db = elim (begin bt false db) [
    | none ↦ none
    | some (err e, db') ↦ none
    | some (ok tx, db') ↦
        value_of_read (get bt key (record { db = db'; tx = record tx { funcd = true } }))
  ]

  unfoldable pub get_value : Bytes → Option (Db bt) → Call (Option V × Option Error)
  get_value key none = some (ret (none, none), none)
  get_value key (some db) = with_value (read_in key db) (view bt (get_fn key) db)

  abbrev pub delete_fn : Bytes → State bt → Outcome (Option Error) × State bt
  delete_fn key s = let r = delete bt key s in (error_of r.0, r.1)

  unfoldable pub delete_key : Bytes → Option (Db bt) → Call (Option Error)
  delete_key key none = some (ret none, none)
  delete_key key (some db) = in_store (update bt (delete_fn key) db)

  -- `Begin(false)`, an iteration, and the deferred `Rollback`, whose result is dropped unless it
  -- panics.
  abbrev pub after_iteration : {A : Type 0} → Reply bt A → Outcome (Option Error) × A × Db bt
  after_iteration (r, a, s) =
      let ended = rollback bt s in
      elim ended.0 [ ret _ ↦ (r, a, ended.1.db) | panic ↦ (panic, a, ended.1.db) ]

  abbrev pub Iteration : Type 0 → Type 0
  Iteration A = Option (Outcome (Option Error) × A × Option (Db bt))

  abbrev pub in_view : {A : Type 0} → (A → State bt → Reply bt A) → A → Option (Db bt) → Iteration A
  in_view run a none = some (ret none, a, none)
  in_view run a (some db) = elim (begin bt false db) [
    | none ↦ none
    | some (err e, db') ↦ some (ret (some e), a, some db')
    | some (ok tx, db') ↦
        let r = after_iteration (run a (record { db = db'; tx = tx })) in some (r.0, r.1, some r.2)
  ]

  -- 42 is `*`. The callback is not nil.
  unfoldable pub prefix_iterator :
      {A : Type 0} → Matcher → Bytes → IterFunc bt A → A → Option (Db bt) → Iteration A
  prefix_iterator m prefix iter a db =
      in_view (ascend_keys bt m (some (prefix ++ (42 ∷ []))) iter) a db

  unfoldable pub range_iterator :
      {A : Type 0} → Slice → Slice → IterFunc bt A → A → Option (Db bt) → Iteration A
  range_iterator start end iter a db = in_view (ascend_range bt start end iter) a db

  -- The body of the loop of `ExecuteBatch`: an operation with a nil value is a deletion.
  unfoldable pub execute_op : Operation V → State bt → Outcome (Option Error) × State bt
  execute_op op s = elim op.value [ some v ↦ put_fn op.key (some v) s | none ↦ delete_fn op.key s ]

  -- The loop of `ExecuteBatch`: it stops at the first error.
  unfoldable pub execute_ops : List (Operation V) → State bt → Outcome (Option Error) × State bt
  execute_ops [] s = (ret none, s)
  execute_ops (op ∷ ops) s =
      let r = execute_op op s in
      elim r.0 [
        | ret none ↦ execute_ops ops r.1
        | ret (some e) ↦ (ret (some e), r.1)
        | panic ↦ (panic, r.1)
      ]

  -- The deferred function of `ExecuteBatch`; after a panic `err` is nil and it commits.
  unfoldable pub end_batch : Outcome (Option Error) × State bt → Outcome (Option Error) × State bt
  end_batch (ret none, s) = commit bt s
  end_batch (ret (some e), s) =
      let r = rollback bt s in elim r.0 [ ret _ ↦ (ret (some e), r.1) | panic ↦ (panic, r.1) ]
  end_batch (panic, s) = (panic, (commit bt s).1)

  unfoldable pub execute_batch : Option (Batch V) → Option (Db bt) → Call (Option Error)
  unfolding operations
  execute_batch batch none = some (ret none, none)
  execute_batch none (some db) = some (ret none, some db)
  execute_batch (some batch) (some db) = elim (begin bt true db) [
    | none ↦ none
    | some (err e, db') ↦ some (ret (some e), some db')
    | some (ok tx, db') ↦
        let r = end_batch (execute_ops (operations batch) (record { db = db'; tx = tx })) in
        some (r.0, some r.1.db)
  ]

  unfoldable pub close_store : Option (Db bt) → Call (Option Error)
  close_store none = some (ret none, none)
  close_store (some db) = elim (close bt db) [
    | none ↦ none
    | some (e, db') ↦ some (ret e, some db')
  ]
