-- ===== src/Memstore/Tx/Atomic.antt =====
-- Commit and rollback of a transaction: all of its writes, or none of them.
use baud.Base.{
  ◌≡◌, refl, ap, ◌∙◌, true, false, Option, none, some, List, [], ◌∷◌, arith, ==_refl, ret,
}
use baud.Base.Bytes.{Bytes, bytes_eq}
use baud.Base.Assoc.{lookup, insert}
use baud.Memstore.Item.{DbItem}
use baud.Memstore.Tree.{BTree, IsBTree}
use baud.Memstore.Db.{WriteContext, State, unlock, key_item}
use baud.Memstore.View.{at, value_of, contents, get-at, at-delete}
use baud.Memstore.Tx.{note_set, note_delete, commit, rollback}
use baud.Memstore.Tx.Undo.{undone, rollback_loop-undone, at-undone}
use baud.Memstore.Tx.Script.{
  Write, put, del, write_all, NoPutAfterDel, run, IsWriting, put_item, step_tree,
}
use baud.Memstore.Tx.Remember.{Remembers, fresh-Remembers}
use baud.Memstore.Tx.Track.{
  run_tree, run_context, run-IsWriting, run_frame, value-run, run-Remembers, Remembers-IsKeyed,
}

module _ {V : Type 0} (bt : BTree V) where
  -- The rollback of an open writable transaction ends it over the undone tree.
  pub rollback-writing :
      (s : State bt) (t : bt.Tree) (w : WriteContext bt)
      → IsWriting bt s t w
      → s.tx.funcd ≡ false
      → rollback bt s ≡ (
        ret none,
        record {
          db = record s.db { mu = unlock true s.db.mu; keys = some (undone bt w.rollback_items t) };
          tx = record s.tx { db_open = false };
        },
      )
  unfolding rollback
  rollback-writing s t w h f = ground (arith, rollback_loop-undone bt w.rollback_items t s.db)

  pub commit-writing :
      (s : State bt) (t : bt.Tree) (w : WriteContext bt)
      → IsWriting bt s t w
      → s.tx.funcd ≡ false
      → commit bt s ≡ (
        ret none,
        record {
          db = record s.db { mu = unlock true s.db.mu };
          tx = record s.tx { db_open = false };
        },
      )
  unfolding commit
  commit-writing s t w h f = ground arith

  -- A transaction that has not written yet, over an unlocked view of the lock's writer side.
  pub record IsFresh (s : State bt) (t : bt.Tree) (w : WriteContext bt) : Type 0 where
    pub writing : IsWriting bt s t w
    pub unmanaged : s.tx.funcd ≡ false
    pub nothing_saved : w.rollback_items ≡ []

  module _ (laws : IsBTree bt) where
    pub undone-value :
        (t0 t : bt.Tree) (w : WriteContext bt) (k : Bytes)
        → Remembers bt t0 [] t w
        → value_of bt (at bt (undone bt w.rollback_items t) k) ≡ value_of bt (at bt t0 k)
    undone-value t0 t w k r = ground (
      arith,
      r.agrees k,
      at-undone bt laws w.rollback_items t k r.distinct (Remembers-IsKeyed bt laws t0 t w [] r),
    )

    -- Rollback after any run of Set and Delete calls in which no key is set after it was deleted:
    -- it reports no error, every key holds what it held before the run, the writer's lock is given
    -- back and the transaction is ended.
    pub rollback_restores :
        (s : State bt) (t : bt.Tree) (w : WriteContext bt) (ws : List (Write V))
        → IsFresh s t w
        → NoPutAfterDel ws
        → ((rollback bt (run bt ws s)).0 ≡ ret none)
          × ((k : Bytes) → contents bt (rollback bt (run bt ws s)).1.db k ≡ contents bt s.db k)
          × ((rollback bt (run bt ws s)).1.db.mu ≡ unlock true s.db.mu)
          × ((rollback bt (run bt ws s)).1.tx.db_open ≡ false)
    rollback_restores s t w ws h safe =
        let ended =
          rollback-writing (run bt ws s) (run_tree bt ws t) (run_context bt ws t w)
            (run-IsWriting bt ws s t w h.writing)
            ((run_frame bt ws s t w h.writing).2 ∙ h.unmanaged) in
        let kept =
          run-Remembers bt laws t ws s t w h.writing safe
            (fresh-Remembers bt t ws w h.nothing_saved) in
        (
          ap (λ r. r.0) ended,
          λ k.
              rw (ended, h.writing.tree)
                (undone-value t (run_tree bt ws t) (run_context bt ws t w) k kept),
          rw ended (ap (λ m. unlock true m) (run_frame bt ws s t w h.writing).0),
          rw ended refl,
        )

    -- Commit after any run of Set and Delete calls: it reports no error, the database holds the
    -- keys after the same writes on a map, the writer's lock is given back and the transaction is
    -- ended.
    pub commit_applies :
        (s : State bt) (t : bt.Tree) (w : WriteContext bt) (ws : List (Write V))
        → IsFresh s t w
        → ((commit bt (run bt ws s)).0 ≡ ret none)
          × ((k : Bytes)
              → contents bt (commit bt (run bt ws s)).1.db k ≡ write_all ws (contents bt s.db) k)
          × ((commit bt (run bt ws s)).1.db.mu ≡ unlock true s.db.mu)
          × ((commit bt (run bt ws s)).1.tx.db_open ≡ false)
    commit_applies s t w ws h =
        let writing = run-IsWriting bt ws s t w h.writing in
        let ended =
          commit-writing (run bt ws s) (run_tree bt ws t) (run_context bt ws t w) writing
            ((run_frame bt ws s t w h.writing).2 ∙ h.unmanaged) in
        (
          ap (λ r. r.0) ended,
          λ k. rw (ended, writing.tree, h.writing.tree) (value-run bt laws ws t k),
          rw ended (ap (λ m. unlock true m) (run_frame bt ws s t w h.writing).0),
          rw ended refl,
        )

    lost_items :
        (t : bt.Tree) (w : WriteContext bt) (k : Bytes) (i : DbItem V) (v : Option V)
        → w.rb_keys ≡ none
        → w.rollback_items ≡ []
        → at bt t k ≡ some i
        → (run_context bt (del k ∷ put k v ∷ []) t w).rollback_items ≡ (k, none) ∷ []
    unfolding note_set note_delete lookup insert
    lost_items t w k i v nr ni e =
        let t' = step_tree bt (del k) t in
        ground (
          arith,
          laws.deleted t (key_item bt k),
          laws.replaced t' (put_item bt k v),
          get-at bt laws t' (put_item bt k v),
          at-delete bt laws t (key_item bt k) k,
          ==_refl k,
        )

    lost_value :
        (t : bt.Tree) (k : Bytes) → value_of bt (at bt (undone bt ((k, none) ∷ []) t) k) ≡ none
    unfolding undone
    lost_value t k = ground (arith, at-delete bt laws t (key_item bt k) k, ==_refl k)

    -- A key that holds an item, is deleted and is set again is gone after the rollback: the
    -- entry that Delete saved is overwritten by Set's entry for a new key.
    pub rollback_loses :
        (s : State bt) (t : bt.Tree) (w : WriteContext bt) (k : Bytes) (i : DbItem V) (v : Option V)
        → IsFresh s t w
        → at bt t k ≡ some i
        → (contents bt s.db k ≡ some i.value)
          × (contents bt (rollback bt (run bt (del k ∷ put k v ∷ []) s)).1.db k ≡ none)
    rollback_loses s t w k i v h e =
        let ws : List (Write V) = del k ∷ put k v ∷ [] in
        let ended =
          rollback-writing (run bt ws s) (run_tree bt ws t) (run_context bt ws t w)
            (run-IsWriting bt ws s t w h.writing)
            ((run_frame bt ws s t w h.writing).2 ∙ h.unmanaged) in
        (
          rw (h.writing.tree, e) refl,
          rw ended (
              rw (lost_items t w k i v h.writing.no_rb_keys h.nothing_saved e)
                (lost_value (run_tree bt ws t) k)),
        )
