-- ===== src/Memstore/Tx.antt =====
-- engine/kernel/store/memstore/btreedb/btree.go: the methods of `Tx` that read, write and end a
-- transaction, and the managed transactions of `DB`.
pub mod Undo
pub mod Script
pub mod Remember
pub mod Track
pub mod Atomic
pub mod Managed
use baud.Base.{
  Bool, true, false, not, Option, none, some, List, [], ◌∷◌, ltb, Outcome, ret, panic, Result, ok,
  err, ◌>>=◌, if◌then◌else◌,
}
use baud.Base.Bytes.{Bytes, bytes_eq}
use baud.Base.Assoc.{lookup, insert}
use baud.Memstore.Item.{DbItem}
use baud.Memstore.Tree.{BTree}
use baud.Memstore.Db.{
  Error, tx_not_writable, tx_closed, not_found, tx_iterating, WriteContext, Tx, Db, State, unlock,
  begin, insert_into_database, delete_from_database, key_item, get_item,
}

-- `preValue` and `replaced` of `Set`.
pub record SetReply (V : Type 0) : Type 0 where
  pub pre_value : Option V
  pub replaced : Bool

module _ {V : Type 0} (bt : BTree V) where
  -- The loop of `rollbackInner`, over the entries in the order that `range` yields them.
  unfoldable pub rollback_loop : List (Bytes × Option (DbItem V)) → Db bt → Outcome (Db bt)
  unfolding delete_from_database insert_into_database
  rollback_loop [] db = ret db
  rollback_loop ((key, none) ∷ m) db = do
    r ← delete_from_database bt (key_item bt key) db
    rollback_loop m r.1
  rollback_loop ((key, some item) ∷ m) db = do
    r ← delete_from_database bt (key_item bt key) db
    s ← insert_into_database bt item r.1
    rollback_loop m s.1

  unfoldable pub rollback_inner : WriteContext bt → Db bt → Outcome (Db bt)
  unfolding rollback_loop
  rollback_inner wc db =
      rollback_loop wc.rollback_items
        (elim wc.rb_keys [ none ↦ db | some t ↦ record db { keys = some t } ])

  -- Gives the lock back and clears `tx.db`.
  abbrev pub release : State bt → State bt
  release s = record {
    db = record s.db { mu = unlock s.tx.writable s.db.mu };
    tx = record s.tx { db_open = false };
  }

  unfoldable pub commit : State bt → Outcome (Option Error) × State bt
  unfolding unlock
  commit s =
      if s.tx.funcd
      then (panic, s)
      else if not s.tx.db_open
      then (ret (some tx_closed), s)
      else if not s.tx.writable
      then (ret (some tx_not_writable), s)
      else (ret none, release s)

  -- A writable transaction has a write context; without one `rollbackInner` panics.
  abbrev pub undo : State bt → Outcome (Db bt)
  undo s = elim s.tx.wc [ none ↦ panic | some wc ↦ rollback_inner wc s.db ]

  abbrev pub end_rollback : Outcome (Db bt) → State bt → Outcome (Option Error) × State bt
  end_rollback (ret db) s = (ret none, release (record s { db = db }))
  end_rollback panic s = (panic, s)

  unfoldable pub rollback : State bt → Outcome (Option Error) × State bt
  unfolding unlock rollback_inner
  rollback s =
      if s.tx.funcd
      then (panic, s)
      else if not s.tx.db_open
      then (ret (some tx_closed), s)
      else end_rollback (if s.tx.writable then undo s else ret s.db) s

  -- The entry that `Set` leaves in the rollback map.
  unfoldable pub note_set : Bytes → Option (DbItem V) → WriteContext bt → WriteContext bt
  note_set key prev wc = elim wc.rb_keys [
    | some t ↦ wc
    | none ↦ elim prev [
      | none ↦ record wc { rollback_items = insert key none wc.rollback_items }
      | some p ↦ elim (lookup key wc.rollback_items) [
        | none ↦ record wc { rollback_items = insert key (some p) wc.rollback_items }
        | some saved ↦ wc
      ]
    ]
  ]

  -- The entry that `Delete` leaves there.
  unfoldable pub note_delete : Bytes → DbItem V → WriteContext bt → WriteContext bt
  note_delete key item wc = elim wc.rb_keys [
    | some t ↦ wc
    | none ↦ elim (lookup key wc.rollback_items) [
      | none ↦ record wc { rollback_items = insert key (some item) wc.rollback_items }
      | some saved ↦ wc
    ]
  ]

  unfoldable pub set_reply : Option (DbItem V) → WriteContext bt → SetReply V
  set_reply prev wc = elim wc.rb_keys [
    | some t ↦ record { pre_value = none; replaced = false }
    | none ↦ elim prev [
      | none ↦ record { pre_value = none; replaced = false }
      | some p ↦ record { pre_value = p.value; replaced = true }
    ]
  ]

  abbrev pub set_with :
      Bytes → Option V → WriteContext bt → State bt → Outcome (Result Error (SetReply V)) × State bt
  set_with key value wc s =
      elim (insert_into_database bt (record { key = key; value = value }) s.db) [
        | panic ↦ (panic, s)
        | ret r ↦ (
          ret (ok (set_reply r.0 wc)),
          record { db = r.1; tx = record s.tx { wc = some (note_set key r.0 wc) } },
        )
      ]

  unfoldable pub set : Bytes → Option V → State bt → Outcome (Result Error (SetReply V)) × State bt
  unfolding insert_into_database note_set set_reply
  set key value s =
      if not s.tx.db_open
      then (ret (err tx_closed), s)
      else if not s.tx.writable
      then (ret (err tx_not_writable), s)
      else elim s.tx.wc [
        | none ↦ (panic, s)
        | some wc ↦
            if ltb 0 wc.iter_count then (ret (err tx_iterating), s) else set_with key value wc s
      ]

  abbrev pub value_or_not_found : Option (DbItem V) → Result Error (Option V)
  value_or_not_found none = err not_found
  value_or_not_found (some item) = ok item.value

  unfoldable pub get : Bytes → State bt → Outcome (Result Error (Option V))
  unfolding get_item
  get key s =
      if not s.tx.db_open
      then ret (err tx_closed)
      else (do item ← get_item bt key s.db; ret (value_or_not_found item))

  abbrev pub delete_with :
      Bytes → WriteContext bt → State bt → Outcome (Result Error (Option V)) × State bt
  delete_with key wc s = elim (delete_from_database bt (key_item bt key) s.db) [
    | panic ↦ (panic, s)
    | ret r ↦ elim r.0 [
      | none ↦ (ret (err not_found), record s { db = r.1 })
      | some item ↦ (
        ret (ok item.value),
        record { db = r.1; tx = record s.tx { wc = some (note_delete key item wc) } },
      )
    ]
  ]

  unfoldable pub delete : Bytes → State bt → Outcome (Result Error (Option V)) × State bt
  unfolding delete_from_database note_delete
  delete key s =
      if not s.tx.db_open
      then (ret (err tx_closed), s)
      else if not s.tx.writable
      then (ret (err tx_not_writable), s)
      else elim s.tx.wc [
        | none ↦ (panic, s)
        | some wc ↦
            if ltb 0 wc.iter_count then (ret (err tx_iterating), s) else delete_with key wc s
      ]

  -- What `managed` hands to its caller's function, and the deferred end of the transaction: the
  -- error of the function wins; with none, or after a panic, which leaves `err` nil, it commits.
  abbrev pub enter : Tx bt → Db bt → State bt
  enter tx db = record { db = db; tx = record tx { funcd = true } }

  abbrev pub leave : State bt → State bt
  leave s = record s { tx = record s.tx { funcd = false } }

  unfoldable pub finish :
      Bool → Outcome (Option Error) × State bt → Outcome (Option Error) × State bt
  finish writable (ret (some e), s) =
      let r = rollback (leave s) in elim r.0 [ ret _ ↦ (ret (some e), r.1) | panic ↦ (panic, r.1) ]
  finish writable (ret none, s) = if writable then commit (leave s) else rollback (leave s)
  finish writable (panic, s) =
      (panic, (if writable then commit (leave s) else rollback (leave s)).1)

  -- `none` is a call that waits for the lock.
  unfoldable pub managed :
      Bool
      → (State bt → Outcome (Option Error) × State bt)
      → Db bt
      → Option (Outcome (Option Error) × Db bt)
  managed writable fn db = elim (begin bt writable db) [
    | none ↦ none
    | some (err e, db') ↦ some (ret (some e), db')
    | some (ok tx, db') ↦ some (let r = finish writable (fn (enter tx db')) in (r.0, r.1.db))
  ]

  abbrev pub view :
      (State bt → Outcome (Option Error) × State bt)
      → Db bt
      → Option (Outcome (Option Error) × Db bt)
  view fn db = managed false fn db

  abbrev pub update :
      (State bt → Outcome (Option Error) × State bt)
      → Db bt
      → Option (Outcome (Option Error) × Db bt)
  update fn db = managed true fn db
