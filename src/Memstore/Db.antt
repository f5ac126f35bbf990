-- ===== src/Memstore/Db.antt =====
-- engine/kernel/store/memstore/btreedb/btree.go: the database, its transactions and its lock.
-- A pointer that may be nil is an option. One database is in play: a transaction whose `db` field
-- is not nil points to it, so the field is the Boolean `db_open`.
use baud.Base.{
  ℕ, ◌+◌, ◌-◌, Bool, true, false, ◌||◌, Option, none, some, List, [], ltb, Outcome, ret, panic,
  Result, ok, err, if◌then◌else◌,
}
use baud.Base.Bytes.{Bytes}
use baud.Memstore.Item.{DbItem}
use baud.Memstore.Tree.{BTree}

-- The error values of btree.go, and the errors of the functions that callers hand in.
pub data Error : Type 0 where
  tx_not_writable tx_closed not_found invalid invalid_config database_closed tx_iterating : Error
  callback_error : ℕ → Error

-- `sync.RWMutex`: a writer, or readers, hold it.
pub record RwMutex : Type 0 where
  pub writer : Bool
  pub readers : ℕ

pub record WriteContext {V : Type 0} (bt : BTree V) : Type 0 where
  pub rb_keys : Option bt.Tree
  pub rollback_items : List (Bytes × Option (DbItem V))
  pub iter_count : ℕ

pub record Tx {V : Type 0} (bt : BTree V) : Type 0 where
  pub db_open : Bool
  pub writable : Bool
  pub funcd : Bool
  pub wc : Option (WriteContext bt)

pub record Db {V : Type 0} (bt : BTree V) : Type 0 where
  pub mu : RwMutex
  pub keys : Option bt.Tree
  pub closed : Bool

-- What the methods of a transaction read and write.
pub record State {V : Type 0} (bt : BTree V) : Type 0 where
  pub db : Db bt
  pub tx : Tx bt

-- `Lock` and `RLock` wait while the mutex is held against them: `none` is a call that waits.
unfoldable pub lock : Bool → RwMutex → Option RwMutex
lock true m = if m.writer || ltb 0 m.readers then none else some (record m { writer = true })
lock false m = if m.writer then none else some (record m { readers = m.readers + 1 })

unfoldable pub unlock : Bool → RwMutex → RwMutex
unlock true m = record m { writer = false }
unlock false m = record m { readers = m.readers - 1 }

abbrev pub free_mutex : RwMutex
free_mutex = record { writer = false; readers = 0 }

module _ {V : Type 0} (bt : BTree V) where
  -- `config` is nil or holds the degree.
  unfoldable pub new_db_with_config : Option ℕ → Outcome (Result Error (Db bt))
  new_db_with_config none = ret (err invalid_config)
  new_db_with_config (some degree) =
      if ltb degree 1 then ret (err invalid_config) else elim (bt.new degree) [
        | panic ↦ panic
        | ret t ↦ ret (ok (record { mu = free_mutex; keys = some t; closed = false }))
      ]

  -- `none` is a call that waits for the lock, which `defer` gives back at the end.
  unfoldable pub close : Db bt → Option (Option Error × Db bt)
  unfolding lock unlock
  close db = elim (lock true db.mu) [
    | none ↦ none
    | some mu ↦ some (
        if db.closed
        then (some database_closed, record db { mu = unlock true mu })
        else (none, record { mu = unlock true mu; keys = none; closed = true }))
  ]

  abbrev pub new_tx : Bool → Tx bt
  new_tx writable = record {
    db_open = true;
    writable = writable;
    funcd = false;
    wc =
        if writable
        then some (record { rb_keys = none; rollback_items = []; iter_count = 0 })
        else none;
  }

  unfoldable pub begin : Bool → Db bt → Option (Result Error (Tx bt) × Db bt)
  unfolding lock unlock
  begin writable db = elim (lock writable db.mu) [
    | none ↦ none
    | some mu ↦ some (
        if db.closed
        then (err database_closed, record db { mu = unlock writable mu })
        else (ok (new_tx writable), record db { mu = mu }))
  ]

  -- The methods of a nil tree panic.
  unfoldable pub insert_into_database : DbItem V → Db bt → Outcome (Option (DbItem V) × Db bt)
  insert_into_database item db = elim db.keys [
    | none ↦ panic
    | some t ↦
        let (prev, t') = bt.replace_or_insert t item in ret (prev, record db { keys = some t' })
  ]

  unfoldable pub delete_from_database : DbItem V → Db bt → Outcome (Option (DbItem V) × Db bt)
  delete_from_database item db = elim db.keys [
    | none ↦ panic
    | some t ↦ let (prev, t') = bt.delete t item in ret (prev, record db { keys = some t' })
  ]

  -- An item that holds a key only, to look it up.
  abbrev pub key_item : Bytes → DbItem V
  key_item key = record { key = key; value = none }

  unfoldable pub get_item : Bytes → Db bt → Outcome (Option (DbItem V))
  get_item key db = elim db.keys [ none ↦ panic | some t ↦ ret (bt.get t (key_item key)) ]
