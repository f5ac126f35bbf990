-- ===== src/Memstore/Locks.antt =====
-- engine/kernel/store/memstore/btreedb/btree.go: transactions of several callers on one database.
-- A world is the database and the transactions that are open; a step is one call that returns. A
-- call that has to wait for the lock takes no step.
pub mod Exclusive
pub mod Isolated
use baud.Base.{
  ℕ, ◌+◌, ◌≡◌, Bool, true, false, Option, none, some, List, [], ◌∷◌, ◌++◌, ret, ok, err, Result,
  if◌then◌else◌,
}
use baud.Memstore.Tree.{BTree}
use baud.Memstore.Db.{Error, RwMutex, WriteContext, Tx, Db, State, begin, close}
use baud.Memstore.Tx.{commit, rollback}
use baud.Memstore.Tx.Script.{Write, step}

pub record World {V : Type 0} (bt : BTree V) : Type 0 where
  pub db : Db bt
  pub txs : List (Tx bt)

module _ {V : Type 0} (bt : BTree V) where
  abbrev pub at_tx : World bt → Tx bt → State bt
  at_tx w tx = record { db = w.db; tx = tx }

  pub data Step (w w' : World bt) : Type 0 where
    begins :
        (writable : Bool) (tx : Tx bt) (db' : Db bt)
        → begin bt writable w.db ≡ some (ok tx, db')
        → w' ≡ record { db = db'; txs = tx ∷ w.txs }
        → Step w w'
    begin_fails :
        (writable : Bool) (e : Error) (db' : Db bt)
        → begin bt writable w.db ≡ some (err e, db')
        → w' ≡ record w { db = db' }
        → Step w w'
    writes :
        (before after : List (Tx bt)) (tx : Tx bt) (o : Write V)
        → w.txs ≡ before ++ (tx ∷ after)
        → w' ≡ record {
          db = (step bt o (at_tx w tx)).db;
          txs = before ++ ((step bt o (at_tx w tx)).tx ∷ after);
        }
        → Step w w'
    commits :
        (before after : List (Tx bt)) (tx : Tx bt)
        → w.txs ≡ before ++ (tx ∷ after)
        → (commit bt (at_tx w tx)).0 ≡ ret none
        → w' ≡ record { db = (commit bt (at_tx w tx)).1.db; txs = before ++ after }
        → Step w w'
    rolls_back :
        (before after : List (Tx bt)) (tx : Tx bt)
        → w.txs ≡ before ++ (tx ∷ after)
        → w' ≡ record { db = (rollback bt (at_tx w tx)).1.db; txs = before ++ after }
        → Step w w'
    closes :
        (e : Option Error) (db' : Db bt)
        → close bt w.db ≡ some (e, db')
        → w' ≡ record w { db = db' }
        → Step w w'

  pub data Reach (w : World bt) : World bt → Type 0 where
    here : Reach w w
    next : {u v : World bt} → Reach w u → Step u v → Reach w v

  -- The open transactions of each kind.
  abbrev pub readers : List (Tx bt) → ℕ
  readers [] = 0
  readers (tx ∷ txs) = (if tx.writable then 0 else 1) + readers txs

  abbrev pub writers : List (Tx bt) → ℕ
  writers [] = 0
  writers (tx ∷ txs) = (if tx.writable then 1 else 0) + writers txs
