-- ===== src/Memstore/Locks/Isolated.antt =====
-- Any interleaving of calls keeps the lock discipline.
use baud.Base.{
  ℕ, ◌+◌, ◌≡◌, ◌<◌, refl, ◌⊎◌, Bool, true, false, Option, some, [], ◌∷◌, arith, ok, err, ret,
  Outcome-cases, Option-cases, Bool-cases, inl, inr,
}
use baud.Memstore.Tree.{BTree}
use baud.Memstore.Db.{Error, Tx, Db, State, begin, close, new_db_with_config}
use baud.Memstore.Tx.{commit, rollback}
use baud.Memstore.Tx.Script.{step}
use baud.Memstore.Locks.{
  World, Step, Reach, at_tx, readers, writers, begins, begin_fails, writes, commits, rolls_back,
  closes, here, next,
}
use baud.Memstore.Locks.Exclusive.{
  IsLocked, open_database, counts, step_readonly, this-IsOpen, end-IsLocked, write-IsLocked,
  step-Kept, rollback-Ended, commit-Ended,
}

module _ {V : Type 0} (bt : BTree V) where
  begin-IsLocked :
      (w : World bt) (writable : Bool) (tx : Tx bt) (db' : Db bt)
      → IsLocked bt w
      → begin bt writable w.db ≡ some (ok tx, db')
      → IsLocked bt (record { db = db'; txs = tx ∷ w.txs })
  unfolding begin
  begin-IsLocked w true tx db' l h = record {
    counted = ground (arith, l.counted, l.one_writer, l.exclusive);
    one_writer = ground (arith, l.counted, l.one_writer, l.exclusive);
    exclusive = ground (arith, l.counted, l.one_writer, l.exclusive);
    all_open = ground (arith, l.all_open);
    has_tree = ground (arith, l.has_tree);
  }
  begin-IsLocked w false tx db' l h = record {
    counted = ground (arith, l.counted, l.one_writer, l.exclusive);
    one_writer = ground (arith, l.counted, l.one_writer, l.exclusive);
    exclusive = ground (arith, l.counted, l.one_writer, l.exclusive);
    all_open = ground (arith, l.all_open);
    has_tree = ground (arith, l.has_tree);
  }

  -- A refused `Begin` gives the lock back.
  begin_fails_same :
      (db : Db bt) (writable : Bool) (e : Error) (db' : Db bt)
      → begin bt writable db ≡ some (err e, db')
      → (db'.keys ≡ db.keys)
        × (db'.closed ≡ db.closed)
        × (db'.mu.writer ≡ db.mu.writer)
        × (db'.mu.readers ≡ db.mu.readers)
  unfolding begin
  begin_fails_same db true e db' h = ground arith
  begin_fails_same db false e db' h = ground arith

  close_result :
      (db : Db bt) (e : Option Error) (db' : Db bt)
      → close bt db ≡ some (e, db')
      → (db.mu.writer ≡ false)
        × (db.mu.readers ≡ 0)
        × (db'.mu.writer ≡ false)
        × (db'.mu.readers ≡ 0)
        × (db'.closed ≡ true)
  unfolding close
  close_result db e db' h = ground arith

  Step-IsLocked : (w w' : World bt) → IsLocked bt w → Step bt w w' → IsLocked bt w'
  Step-IsLocked w w' l (begins writable tx db' h e) = rw e (begin-IsLocked w writable tx db' l h)
  Step-IsLocked w w' l (begin_fails writable x db' h e) =
      let same = begin_fails_same w.db writable x db' h in
      rw e (record {
        counted = ground (arith, l.counted, same);
        one_writer = ground (arith, l.one_writer, same);
        exclusive = ground (arith, l.exclusive, same);
        all_open = l.all_open;
        has_tree = ground (arith, l.has_tree, same);
      })
  Step-IsLocked w w' l (writes before after tx o p e) =
      let (c, t, k) = open_database bt w l before after tx p in
      rw e (
        write-IsLocked bt w l before after tx p (step bt o (at_tx bt w tx))
          (step-Kept bt o (at_tx bt w tx) t (this-IsOpen bt w l before after tx p) k))
  Step-IsLocked w w' l (commits before after tx p h e) =
      let (c, t, k) = open_database bt w l before after tx p in
      rw e (
        end-IsLocked bt w l before after tx p (commit bt (at_tx bt w tx)).1.db
          (commit-Ended bt (at_tx bt w tx) t k h))
  Step-IsLocked w w' l (rolls_back before after tx p e) =
      let (c, t, k) = open_database bt w l before after tx p in
      rw e (
        end-IsLocked bt w l before after tx p (rollback bt (at_tx bt w tx)).1.db
          (rollback-Ended bt (at_tx bt w tx) t (this-IsOpen bt w l before after tx p) k))
  Step-IsLocked w w' l (closes x db' h e) =
      let r = close_result w.db x db' h in
      rw e (record {
        counted = ground (arith, l.counted, r);
        one_writer = ground (arith, l.one_writer, r);
        exclusive = ground (arith, r);
        all_open = l.all_open;
        has_tree = ground (arith, l.counted, l.one_writer, r);
      })

  fresh-IsLocked :
      (degree : ℕ) (db : Db bt)
      → new_db_with_config bt (some degree) ≡ ret (ok db)
      → IsLocked bt (record { db = db; txs = [] })
  unfolding new_db_with_config
  fresh-IsLocked degree db h = elim (Outcome-cases (bt.new degree)) [
    | inl e ↦ absurd (ground (arith, h, e))
    | inr (t, e) ↦ record {
      counted = ground (arith, h, e);
      one_writer = ground (arith, h, e);
      exclusive = ground (arith, h, e);
      all_open = tt;
      has_tree = ground (arith, h, e);
    }
  ]

  pub Reach-IsLocked : (w w' : World bt) → IsLocked bt w → Reach bt w w' → IsLocked bt w'
  Reach-IsLocked w w' l here = l
  Reach-IsLocked w w' l (next {u} r s) = Step-IsLocked u w' (Reach-IsLocked w u l r) s

  -- Whatever calls the callers make on a new database, in any order: either no writable
  -- transaction is open, or exactly one is and no reading one is; and while any transaction is open
  -- the database is not closed and has its tree.
  pub Reach-exclusive :
      (degree : ℕ) (db : Db bt) (w : World bt)
      → new_db_with_config bt (some degree) ≡ ret (ok db)
      → Reach bt (record { db = db; txs = [] }) w
      → ((writers bt w.txs ≡ 0) ⊎ ((writers bt w.txs ≡ 1) × (readers bt w.txs ≡ 0)))
        × ((readers bt w.txs + writers bt w.txs ≡ 0)
            ⊎ ((w.db.closed ≡ false) × (t : bt.Tree) × (w.db.keys ≡ some t)))
  Reach-exclusive degree db w h r =
      let l = Reach-IsLocked (record { db = db; txs = [] }) w (fresh-IsLocked degree db h) r in
      (
        elim (Bool-cases w.db.mu.writer) [
          | inl e ↦ inr (ground (arith, l.one_writer), ground (arith, l.counted, l.exclusive))
          | inr e ↦ inl (ground (arith, l.one_writer))
        ],
        elim (Bool-cases w.db.closed) [
          | inl e ↦ inl (ground (arith, l.has_tree))
          | inr e ↦ elim (Option-cases w.db.keys) [
            | inl n ↦ absurd (ground (arith, l.has_tree))
            | inr (t, k) ↦ inr (e, t, k)
          ]
        ],
      )

  begin_keys :
      (db : Db bt) (writable : Bool) (tx : Tx bt) (db' : Db bt)
      → begin bt writable db ≡ some (ok tx, db')
      → (db'.keys ≡ db.keys) × (db'.closed ≡ db.closed)
  unfolding begin
  begin_keys db true tx db' h = ground arith
  begin_keys db false tx db' h = ground arith

  commit_keys :
      (s : State bt)
      → ((commit bt s).1.db.keys ≡ s.db.keys) × ((commit bt s).1.db.closed ≡ s.db.closed)
  unfolding commit
  commit_keys s = ground arith

  rollback_keys :
      (s : State bt)
      → s.tx.writable ≡ false
      → ((rollback bt s).1.db.keys ≡ s.db.keys) × ((rollback bt s).1.db.closed ≡ s.db.closed)
  unfolding rollback
  rollback_keys s h = ground arith

  -- While a reading transaction is open, every call that any caller makes leaves the tree of the
  -- database as it is, and the database open or closed as it is.
  pub reader_sees_no_change :
      (w w' : World bt)
      → IsLocked bt w
      → 0 < readers bt w.txs
      → Step bt w w'
      → (w'.db.keys ≡ w.db.keys) × (w'.db.closed ≡ w.db.closed)
  reader_sees_no_change w w' l p (begins writable tx db' h e) =
      rw e (begin_keys w.db writable tx db' h)
  reader_sees_no_change w w' l p (begin_fails writable x db' h e) =
      let same = begin_fails_same w.db writable x db' h in rw e (same.0, same.1)
  reader_sees_no_change w w' l p (writes before after tx o q e) =
      let read : tx.writable ≡ false =
        ground (arith, counts bt w l before after tx q, l.counted, l.one_writer, l.exclusive) in
      rw (e, step_readonly bt o (at_tx bt w tx) read) (refl, refl)
  reader_sees_no_change w w' l p (commits before after tx q h e) =
      rw e (commit_keys (at_tx bt w tx))
  reader_sees_no_change w w' l p (rolls_back before after tx q e) =
      let read : tx.writable ≡ false =
        ground (arith, counts bt w l before after tx q, l.counted, l.one_writer, l.exclusive) in
      rw e (rollback_keys (at_tx bt w tx) read)
  reader_sees_no_change w w' l p (closes x db' h e) =
      absurd (ground (arith, close_result w.db x db' h, l.counted))
