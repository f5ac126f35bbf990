-- ===== src/Memstore/Locks/Exclusive.antt =====
-- The lock keeps a writing transaction alone, and a reading one from changes.
use baud.Base.{
  ℕ, ◌+◌, ◌≡◌, refl, Bool, true, false, Option, none, some, List, [], ◌∷◌, ◌++◌, arith, ret,
  Option-cases, Bool-cases, inl, inr, if◌then◌else◌,
}
use baud.Memstore.Tree.{BTree}
use baud.Memstore.Db.{WriteContext, Tx, Db, State, unlock}
use baud.Memstore.Tx.{commit, rollback, set, delete}
use baud.Memstore.Tx.Script.{
  Write, put, del, step, IsWriting, step-writing, step_tree, step_context_kept,
}
use baud.Memstore.Tx.Undo.{undone}
use baud.Memstore.Tx.Atomic.{rollback-writing}
use baud.Memstore.Locks.{World, at_tx, readers, writers}

module _ {V : Type 0} (bt : BTree V) where
  -- A writable transaction has a write context that no iteration uses, a reading one has none.
  abbrev pub Context : Bool → Option (WriteContext bt) → Type 0
  Context true none = ⊥
  Context true (some w) = (w.iter_count ≡ 0) × (w.rb_keys ≡ none)
  Context false none = Unit
  Context false (some w) = ⊥

  abbrev pub IsOpen : Tx bt → Type 0
  IsOpen tx = (tx.db_open ≡ true) × (tx.funcd ≡ false) × Context tx.writable tx.wc

  abbrev pub AllOpen : List (Tx bt) → Type 0
  AllOpen [] = Unit
  AllOpen (tx ∷ txs) = IsOpen tx × AllOpen txs

  -- A closed database has no open transaction, any other has a tree.
  abbrev pub HasTree : Bool → Option bt.Tree → List (Tx bt) → Type 0
  HasTree true keys txs = readers bt txs + writers bt txs ≡ 0
  HasTree false none txs = ⊥
  HasTree false (some t) txs = Unit

  abbrev pub Excludes : Bool → ℕ → Type 0
  Excludes true n = n ≡ 0
  Excludes false n = Unit

  pub record IsLocked (w : World bt) : Type 0 where
    pub counted : w.db.mu.readers ≡ readers bt w.txs
    pub one_writer : writers bt w.txs ≡ (if w.db.mu.writer then 1 else 0)
    pub exclusive : Excludes w.db.mu.writer w.db.mu.readers
    pub all_open : AllOpen w.txs
    pub has_tree : HasTree w.db.closed w.db.keys w.txs

  readers-append : (xs ys : List (Tx bt)) → readers bt (xs ++ ys) ≡ readers bt xs + readers bt ys
  readers-append [] ys = omega arith
  readers-append (x ∷ xs) ys = ground (arith, readers-append xs ys)

  writers-append : (xs ys : List (Tx bt)) → writers bt (xs ++ ys) ≡ writers bt xs + writers bt ys
  writers-append [] ys = omega arith
  writers-append (x ∷ xs) ys = ground (arith, writers-append xs ys)

  AllOpen-append : (xs ys : List (Tx bt)) → AllOpen xs → AllOpen ys → AllOpen (xs ++ ys)
  AllOpen-append [] ys p q = q
  AllOpen-append (x ∷ xs) ys p q = (p.0, AllOpen-append xs ys p.1 q)

  AllOpen-split : (xs ys : List (Tx bt)) → AllOpen (xs ++ ys) → AllOpen xs × AllOpen ys
  AllOpen-split [] ys p = (tt, p)
  AllOpen-split (x ∷ xs) ys p = let (q, r) = AllOpen-split xs ys p.1 in ((p.0, q), r)

  pub step_readonly : (o : Write V) (s : State bt) → s.tx.writable ≡ false → step bt o s ≡ s
  unfolding step set delete
  step_readonly (put k v) s h = ground arith
  step_readonly (del k) s h = ground arith

  pub record Kept (s s' : State bt) : Type 0 where
    pub same_mu : s'.db.mu ≡ s.db.mu
    pub same_closed : s'.db.closed ≡ s.db.closed
    pub some_tree : bt.Tree
    pub has_it : s'.db.keys ≡ some some_tree
    pub still_open : IsOpen s'.tx
    pub same_kind : s'.tx.writable ≡ s.tx.writable

  Kept-writing :
      (o : Write V) (s : State bt) (t : bt.Tree) (w : WriteContext bt)
      → IsOpen s.tx
      → IsWriting bt s t w
      → Kept s (step bt o s)
  Kept-writing o s t w p h = record {
    same_mu = ground (arith, step-writing bt o s t w h);
    same_closed = ground (arith, step-writing bt o s t w h);
    some_tree = step_tree bt o t;
    has_it = ground (arith, step-writing bt o s t w h);
    still_open = ground (arith, step-writing bt o s t w h, step_context_kept bt o t w);
    same_kind = ground (arith, step-writing bt o s t w h);
  }

  -- What a call of an open transaction keeps.
  pub step-Kept :
      (o : Write V) (s : State bt) (t : bt.Tree)
      → IsOpen s.tx
      → s.db.keys ≡ some t
      → Kept s (step bt o s)
  step-Kept o s t p h = elim (Bool-cases s.tx.writable) [
    | inl wr ↦ elim (Option-cases s.tx.wc) [
      | inl n ↦ absurd (ground arith)
      | inr (w, e) ↦ Kept-writing o s t w p (ground arith)
    ]
    | inr ro ↦ rw (step_readonly o s ro) (record {
      same_mu = refl;
      same_closed = refl;
      some_tree = t;
      has_it = h;
      still_open = p;
      same_kind = refl;
    })
  ]

  pub record Ended (s : State bt) (db' : Db bt) : Type 0 where
    pub lock_given_back : db'.mu ≡ unlock s.tx.writable s.db.mu
    pub same_closed : db'.closed ≡ s.db.closed
    pub left_tree : bt.Tree
    pub has_it : db'.keys ≡ some left_tree

  pub rollback-Ended :
      (s : State bt) (t : bt.Tree) → IsOpen s.tx → s.db.keys ≡ some t → Ended s (rollback bt s).1.db
  rollback-Ended s t p h = elim (Bool-cases s.tx.writable) [
    | inl wr ↦ elim (Option-cases s.tx.wc) [
      | inl n ↦ absurd (ground arith)
      | inr (w, e) ↦
          let ended = rollback-writing bt s t w (ground arith) p.1 in
          record {
            lock_given_back = ground (arith, ended);
            same_closed = ground (arith, ended);
            left_tree = undone bt w.rollback_items t;
            has_it = ground (arith, ended);
          }
    ]
    | inr ro ↦
        unfold rollback in
        record {
          lock_given_back = ground arith;
          same_closed = ground arith;
          left_tree = t;
          has_it = ground arith;
        }
  ]

  pub commit-Ended :
      (s : State bt) (t : bt.Tree)
      → s.db.keys ≡ some t
      → (commit bt s).0 ≡ ret none
      → Ended s (commit bt s).1.db
  unfolding commit
  commit-Ended s t h e = record {
    lock_given_back = ground arith;
    same_closed = ground arith;
    left_tree = t;
    has_it = ground arith;
  }

  module _ (w : World bt) (locked : IsLocked w) (before after : List (Tx bt)) (tx : Tx bt)
      (place : w.txs ≡ before ++ (tx ∷ after)) where
    pub counts :
        (readers bt w.txs ≡ readers bt before + ((if tx.writable then 0 else 1) + readers bt after))
        × (writers bt w.txs
            ≡ writers bt before + ((if tx.writable then 1 else 0) + writers bt after))
    counts = (
      rw place (readers-append before (tx ∷ after)),
      rw place (writers-append before (tx ∷ after)),
    )

    others_open : AllOpen before × AllOpen (tx ∷ after)
    others_open = AllOpen-split before (tx ∷ after) (rw place at locked.all_open)

    pub this-IsOpen : IsOpen tx
    this-IsOpen = others_open.1.0

    pub open_database : (w.db.closed ≡ false) × (t : bt.Tree) × (w.db.keys ≡ some t)
    open_database = elim (Option-cases w.db.keys) [
      | inl n ↦ absurd (ground (arith, locked.has_tree, counts))
      | inr (t, e) ↦ (ground (arith, locked.has_tree, counts), t, e)
    ]

    pub end-IsLocked :
        (db' : Db bt)
        → Ended (at_tx bt w tx) db'
        → IsLocked (record { db = db'; txs = before ++ after })
    unfolding unlock
    end-IsLocked db' e = record {
      counted = ground (
        arith,
        locked.counted,
        locked.one_writer,
        locked.exclusive,
        counts,
        e.lock_given_back,
        readers-append before after,
      );
      one_writer = ground (
        arith,
        locked.counted,
        locked.one_writer,
        locked.exclusive,
        counts,
        e.lock_given_back,
        writers-append before after,
      );
      exclusive = ground (arith, locked.exclusive, e.lock_given_back);
      all_open = AllOpen-append before after others_open.0 others_open.1.1;
      has_tree = ground (arith, e.same_closed, e.has_it, open_database.0);
    }

    pub write-IsLocked :
        (s' : State bt)
        → Kept (at_tx bt w tx) s'
        → IsLocked (record { db = s'.db; txs = before ++ (s'.tx ∷ after) })
    write-IsLocked s' k = record {
      counted = ground (
        arith,
        locked.counted,
        counts,
        k.same_mu,
        k.same_kind,
        readers-append before (s'.tx ∷ after),
      );
      one_writer = ground (
        arith,
        locked.one_writer,
        counts,
        k.same_mu,
        k.same_kind,
        writers-append before (s'.tx ∷ after),
      );
      exclusive = ground (arith, locked.exclusive, k.same_mu);
      all_open =
          AllOpen-append before (s'.tx ∷ after) others_open.0 (k.still_open, others_open.1.1);
      has_tree = ground (arith, k.same_closed, k.has_it, open_database.0);
    }
