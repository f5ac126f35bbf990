-- ===== src/Memstore/Store/Atomic.antt =====
-- ExecuteBatch: all of the operations of a batch, or none.
use mathlib.Core.Path.{fun_ext, ap₂, subst}
use baud.Base.{◌≡◌, refl, sym, ap, ◌∙◌, true, false, Option, none, some, List, arith, Outcome, ret}
use baud.Base.Bytes.{Bytes, bytes_eq}
use baud.Memstore.Tree.{BTree, IsBTree}
use baud.Memstore.Db.{Error, Db, State, unlock, free_mutex, new_tx}
use baud.Memstore.View.{Contents, contents}
use baud.Memstore.Tx.Undo.{undone}
use baud.Memstore.Tx.Script.{Write, NoPutAfterDel, run, IsWriting}
use baud.Memstore.Tx.Remember.{fresh-Remembers}
use baud.Memstore.Tx.Track.{
  run_tree, run_context, run-IsWriting, run_frame, value-run, run-Remembers,
}
use baud.Memstore.Tx.Atomic.{rollback-writing, commit-writing, undone-value}
use baud.Memstore.Tx.Managed.{IsIdle, outcome_contents, fresh_context, begin-idle}
use baud.Memstore.Batch.{Operation, Batch}
use baud.Memstore.Store.{end_batch, execute_batch}
use baud.Memstore.Store.Ops.{
  batch_error, writes_until, op_writes, NoPutAfterDel-until, writes_until_accepted, tree_contents,
  execute_ops-run,
}

module _ {V : Type 0} (bt : BTree V) where
  -- The transaction that ExecuteBatch opens.
  abbrev opened : Db bt → State bt
  opened db = record {
    db = record db { mu = record { writer = true; readers = 0 } };
    tx = new_tx bt true;
  }

  opened-IsWriting :
      (db : Db bt) (t : bt.Tree) → IsIdle bt db t → IsWriting bt (opened db) t (fresh_context bt)
  opened-IsWriting db t h = ground arith

  closing_frame :
      (db : Db bt) (t : bt.Tree) (ws : List (Write V))
      → IsIdle bt db t
      → (unlock true (run bt ws (opened db)).db.mu ≡ free_mutex)
        × ((run bt ws (opened db)).db.closed ≡ false)
        × ((run bt ws (opened db)).tx.funcd ≡ false)
  unfolding unlock
  closing_frame db t ws h =
      ground (arith, run_frame bt ws (opened db) t (fresh_context bt) (opened-IsWriting db t h))

  abbrev closing_tree : bt.Tree → List (Write V) → Option Error → bt.Tree
  closing_tree t ws none = run_tree bt ws t
  closing_tree t ws (some e) =
      undone bt (run_context bt ws t (fresh_context bt)).rollback_items (run_tree bt ws t)

  -- The database after the deferred end.
  abbrev closing : Db bt → bt.Tree → List (Write V) → Option Error → Db bt
  closing db t ws e = record (run bt ws (opened db)).db {
    mu = unlock true (run bt ws (opened db)).db.mu;
    keys = some (closing_tree t ws e);
  }

  closing-IsIdle :
      (db : Db bt) (t : bt.Tree) (ws : List (Write V)) (e : Option Error)
      → IsIdle bt db t
      → IsIdle bt (closing db t ws e) (closing_tree t ws e)
  closing-IsIdle db t ws e h = record {
    unlocked = (closing_frame db t ws h).0;
    not_closed = (closing_frame db t ws h).1;
    tree = refl;
  }

  end_batch-closing :
      (db : Db bt) (t : bt.Tree) (ws : List (Write V)) (e : Option Error)
      → IsIdle bt db t
      → ((end_batch bt (ret e, run bt ws (opened db))).0 ≡ ret e)
        × ((end_batch bt (ret e, run bt ws (opened db))).1.db ≡ closing db t ws e)
  unfolding end_batch
  end_batch-closing db t ws none h =
      let writing =
        run-IsWriting bt ws (opened db) t (fresh_context bt) (opened-IsWriting db t h) in
      ground (
        arith,
        closing_frame db t ws h,
        commit-writing bt (run bt ws (opened db)) (run_tree bt ws t)
            (run_context bt ws t (fresh_context bt)) writing,
      )
  end_batch-closing db t ws (some e) h =
      let writing =
        run-IsWriting bt ws (opened db) t (fresh_context bt) (opened-IsWriting db t h) in
      ground (
        arith,
        closing_frame db t ws h,
        rollback-writing bt (run bt ws (opened db)) (run_tree bt ws t)
            (run_context bt ws t (fresh_context bt)) writing,
      )

  -- What is to hold after `ExecuteBatch` on a database that holds `c`.
  abbrev pub BatchDone : Db bt → Batch V → Contents V → Type 0
  BatchDone db batch c =
      (db' : Db bt) × (execute_batch bt (some batch) (some db)
        ≡ some (ret (batch_error batch.ops c), some db'))
      × ((k : Bytes)
          → contents bt db' k
            ≡ outcome_contents bt (batch_error batch.ops c) (op_writes batch.ops) c k)
      × (t' : bt.Tree) × IsIdle bt db' t'

  module _ (laws : IsBTree bt) where
    closing-contents :
        (db : Db bt) (t : bt.Tree) (ws : List (Write V)) (e : Option Error)
        → IsIdle bt db t
        → NoPutAfterDel ws
        → (k : Bytes)
        → contents bt (closing db t ws e) k ≡ outcome_contents bt e ws (contents bt db) k
    closing-contents db t ws none h safe k = rw h.tree (value-run bt laws ws t k)
    closing-contents db t ws (some e) h safe k = rw h.tree (
        undone-value bt laws t (run_tree bt ws t) (run_context bt ws t (fresh_context bt)) k (
          run-Remembers bt laws t ws (opened db) t (fresh_context bt) (opened-IsWriting db t h) safe
            (fresh-Remembers bt t ws (fresh_context bt) refl)))

    execute_batch-closing :
        (db : Db bt) (t : bt.Tree) (batch : Batch V)
        → IsIdle bt db t
        → execute_batch bt (some batch) (some db)
          ≡ some (
            ret (batch_error batch.ops (tree_contents bt t)),
            some (
                closing db t
                  (writes_until batch.ops (tree_contents bt t))
                  (batch_error batch.ops (tree_contents bt t))),
          )
    unfolding execute_batch
    execute_batch-closing db t batch h =
        let c = tree_contents bt t in
        let ws = writes_until batch.ops c in
        let e = batch_error batch.ops c in
        rw (begin-idle bt db t h, execute_batch)
          (rw
            (execute_ops-run bt laws batch.ops (opened db) t (fresh_context bt)
              (opened-IsWriting db t h))
            (ap (λ (p : Outcome (Option Error) × Db bt). some (p.0, some p.1))
              (ap₂ (λ (r : Outcome (Option Error)) (d : Db bt). (r, d))
                (end_batch-closing db t ws e h).0 (end_batch-closing db t ws e h).1)))

    closing_outcome :
        (ops : List (Operation V)) (c : Contents V) (e : Option Error) (k : Bytes)
        → batch_error ops c ≡ e
        → outcome_contents bt e (writes_until ops c) c k ≡ outcome_contents bt e (op_writes ops) c k
    closing_outcome ops c none k h = rw (writes_until_accepted ops c h) refl
    closing_outcome ops c (some e) k h = refl

    batch_done :
        (db : Db bt) (t : bt.Tree) (batch : Batch V)
        → IsIdle bt db t
        → NoPutAfterDel (op_writes batch.ops)
        → contents bt db ≡ tree_contents bt t
        → BatchDone db batch (tree_contents bt t)
    batch_done db t batch h safe same =
        let c = tree_contents bt t in
        let ws = writes_until batch.ops c in
        let e = batch_error batch.ops c in
        (
          closing db t ws e,
          execute_batch-closing db t batch h,
          λ k.
              closing-contents db t ws e h (NoPutAfterDel-until batch.ops c safe) k
              ∙ ap (λ d. outcome_contents bt e ws d k) same
              ∙ closing_outcome batch.ops c e k refl,
          closing_tree t ws e,
          closing-IsIdle db t ws e h,
        )

    -- ExecuteBatch on an idle open database, for a batch that sets no key after deleting it: it
    -- does not wait. If no operation deletes a key that holds nothing when its turn comes, there is
    -- no error and the keys hold what all of the operations make of a map. Otherwise it reports
    -- that the key is not found, and every key holds what it held. The database is idle and open.
    pub execute_batch_atomic :
        (db : Db bt) (t : bt.Tree) (batch : Batch V)
        → IsIdle bt db t
        → NoPutAfterDel (op_writes batch.ops)
        → BatchDone db batch (contents bt db)
    execute_batch_atomic db t batch h safe =
        let same : contents bt db ≡ tree_contents bt t = fun_ext (λ k. rw h.tree refl) in
        subst (BatchDone db batch) (sym same) (batch_done db t batch h safe same)
