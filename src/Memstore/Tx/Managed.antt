-- ===== src/Memstore/Tx/Managed.antt =====
-- `Update`: a managed transaction is all or nothing.
use baud.Base.{◌≡◌, refl, true, false, Option, none, some, List, [], arith, Outcome, ret, ok}
use baud.Base.Bytes.{Bytes}
use baud.Memstore.Tree.{BTree, IsBTree}
use baud.Memstore.Db.{Error, WriteContext, Db, State, unlock, free_mutex, new_tx, begin}
use baud.Memstore.View.{Contents, contents}
use baud.Memstore.Tx.{rollback, enter, leave, finish, managed, update}
use baud.Memstore.Tx.Undo.{undone}
use baud.Memstore.Tx.Script.{Write, write_all, NoPutAfterDel, run, IsWriting}
use baud.Memstore.Tx.Remember.{fresh-Remembers}
use baud.Memstore.Tx.Track.{
  run_tree, run_context, run-IsWriting, run_frame, value-run, run-Remembers,
}
use baud.Memstore.Tx.Atomic.{rollback-writing, commit-writing, undone-value}

module _ {V : Type 0} (bt : BTree V) where
  -- An open database that nobody has locked.
  pub record IsIdle (db : Db bt) (t : bt.Tree) : Type 0 where
    pub unlocked : db.mu ≡ free_mutex
    pub not_closed : db.closed ≡ false
    pub tree : db.keys ≡ some t

  -- What a function that writes `ws` and returns `final` is to leave.
  abbrev pub outcome_contents : Option Error → List (Write V) → Contents V → Contents V
  outcome_contents none ws c = write_all ws c
  outcome_contents (some e) ws c = c

  abbrev pub fresh_context : WriteContext bt
  fresh_context = record { rb_keys = none; rollback_items = []; iter_count = 0 }

  -- The state in which the caller's function starts, and the one in which it is left.
  abbrev pub started : Db bt → State bt
  started db = enter bt (new_tx bt true) (record db { mu = record { writer = true; readers = 0 } })

  abbrev ended : Db bt → List (Write V) → State bt
  ended db ws = leave bt (run bt ws (started db))

  pub begin-idle :
      (db : Db bt) (t : bt.Tree)
      → IsIdle db t
      → begin bt true db
        ≡ some (ok (new_tx bt true), record db { mu = record { writer = true; readers = 0 } })
  unfolding begin
  begin-idle db t h = ground arith

  pub started-IsWriting :
      (db : Db bt) (t : bt.Tree) → IsIdle db t → IsWriting bt (started db) t fresh_context
  started-IsWriting db t h = ground arith

  ended-IsWriting :
      (db : Db bt) (t : bt.Tree) (ws : List (Write V))
      → IsIdle db t
      → IsWriting bt (ended db ws) (run_tree bt ws t) (run_context bt ws t fresh_context)
  ended-IsWriting db t ws h =
      ground (arith, run-IsWriting bt ws (started db) t fresh_context (started-IsWriting db t h))

  ended_frame :
      (db : Db bt) (t : bt.Tree) (ws : List (Write V))
      → IsIdle db t
      → (unlock true (ended db ws).db.mu ≡ free_mutex) × ((ended db ws).db.closed ≡ false)
  unfolding unlock
  ended_frame db t ws h =
      ground (arith, run_frame bt ws (started db) t fresh_context (started-IsWriting db t h))

  -- The database after the deferred end of the transaction.
  abbrev left : Db bt → bt.Tree → List (Write V) → Option Error → Db bt
  left db t ws none = record (ended db ws).db { mu = unlock true (ended db ws).db.mu }
  left db t ws (some e) = record (ended db ws).db {
    mu = unlock true (ended db ws).db.mu;
    keys = some (undone bt (run_context bt ws t fresh_context).rollback_items (run_tree bt ws t));
  }

  finish_error :
      (e : Error) (s : State bt) {s' : State bt}
      → rollback bt (leave bt s) ≡ (ret none, s')
      → finish bt true (ret (some e), s) ≡ (ret (some e), s')
  unfolding finish
  finish_error e s h = ground arith

  update-idle :
      (db : Db bt) (t : bt.Tree) (ws : List (Write V)) (final : Option Error)
      → IsIdle db t
      → update bt (λ s. (ret final, run bt ws s)) db ≡ some (ret final, left db t ws final)
  unfolding managed finish
  update-idle db t ws none h =
      rw (begin-idle db t h, managed)
        (rw (
          commit-writing bt (ended db ws) (run_tree bt ws t) (run_context bt ws t fresh_context)
            (ended-IsWriting db t ws h) refl))
  update-idle db t ws (some e) h =
      rw (begin-idle db t h, managed)
        (rw (
          finish_error e (run bt ws (started db)) (
            rollback-writing bt (ended db ws) (run_tree bt ws t) (run_context bt ws t fresh_context)
              (ended-IsWriting db t ws h) refl)))

  abbrev left_tree : bt.Tree → List (Write V) → Option Error → bt.Tree
  left_tree t ws none = run_tree bt ws t
  left_tree t ws (some e) =
      undone bt (run_context bt ws t fresh_context).rollback_items (run_tree bt ws t)

  left-IsIdle :
      (db : Db bt) (t : bt.Tree) (ws : List (Write V)) (final : Option Error)
      → IsIdle db t
      → IsIdle (left db t ws final) (left_tree t ws final)
  left-IsIdle db t ws none h = record {
    unlocked = (ended_frame db t ws h).0;
    not_closed = (ended_frame db t ws h).1;
    tree = (ended-IsWriting db t ws h).tree;
  }
  left-IsIdle db t ws (some e) h = record {
    unlocked = (ended_frame db t ws h).0;
    not_closed = (ended_frame db t ws h).1;
    tree = refl;
  }

  -- Of the caller's function only what it does where it starts matters.
  pub update_local :
      (db : Db bt) (t : bt.Tree) (f g : State bt → Outcome (Option Error) × State bt)
      → IsIdle db t
      → f (started db) ≡ g (started db)
      → update bt f db ≡ update bt g db
  unfolding managed
  update_local db t f g h e = rw (begin-idle db t h, managed) (rw e refl)

  module _ (laws : IsBTree bt) where
    left-contents :
        (db : Db bt) (t : bt.Tree) (ws : List (Write V)) (final : Option Error)
        → IsIdle db t
        → NoPutAfterDel ws
        → (k : Bytes)
        → contents bt (left db t ws final) k ≡ outcome_contents final ws (contents bt db) k
    left-contents db t ws none h safe k =
        rw ((ended-IsWriting db t ws h).tree, h.tree) (value-run bt laws ws t k)
    left-contents db t ws (some e) h safe k = rw h.tree (
        undone-value bt laws t (run_tree bt ws t) (run_context bt ws t fresh_context) k (
          run-Remembers bt laws t ws (started db) t fresh_context (started-IsWriting db t h) safe
            (fresh-Remembers bt t ws fresh_context refl)))

    pub update_atomic :
        (db : Db bt) (t : bt.Tree) (ws : List (Write V)) (final : Option Error)
        → IsIdle db t
        → NoPutAfterDel ws
        → (db' : Db bt) × (update bt (λ s. (ret final, run bt ws s)) db ≡ some (ret final, db'))
          × ((k : Bytes) → contents bt db' k ≡ outcome_contents final ws (contents bt db) k)
          × (t' : bt.Tree) × IsIdle db' t'
    update_atomic db t ws none h safe = (
      left db t ws none,
      update-idle db t ws none h,
      left-contents db t ws none h safe,
      left_tree t ws none,
      left-IsIdle db t ws none h,
    )
    update_atomic db t ws (some e) h safe = (
      left db t ws (some e),
      update-idle db t ws (some e) h,
      left-contents db t ws (some e) h safe,
      left_tree t ws (some e),
      left-IsIdle db t ws (some e) h,
    )
