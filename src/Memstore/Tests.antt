-- ===== src/Memstore/Tests.antt =====
-- Runs of the store on small inputs, and the theorems at concrete inputs.
use baud.Base.{
  ℕ, ◌+◌, ◌≡◌, ◌≢◌, refl, Bool, true, false, Option, none, some, List, [], ◌∷◌, arith, ret, ok, err,
  ◌&&◌, ◌⊎◌, nat_eq,
}
use baud.Base.Bytes.{Bytes, bytes_eq, compare_bytes, lt_bytes, eq_bytes_iff}
use baud.Base.Assoc.{lookup, insert}
use baud.Memstore.Item.{DbItem, less}
use baud.Memstore.Tree.{BTree, IsBTree}
use baud.Memstore.ListTree.{list_tree, list_tree-IsBTree, sorted, without}
use baud.Memstore.Db.{
  tx_iterating, Db, State, free_mutex, new_tx, begin, new_db_with_config, unlock,
}
use baud.Memstore.View.{contents}
use baud.Memstore.Tx.{set, delete, commit, rollback, rollback_loop}
use baud.Memstore.Tx.Undo.{rollback_any_order}
use baud.Memstore.Tx.Script.{Write, put, del, write, write_all, NoPutAfterDel, run, step}
use baud.Memstore.Tx.Atomic.{IsFresh, rollback_restores, commit_applies, rollback_loses}
use baud.Memstore.Tx.Managed.{IsIdle, fresh_context}
use baud.Memstore.Scan.{ascend_range, ascend, descend_range, Slice}
use baud.Memstore.Scan.Range.{Visits}
use baud.Memstore.Scan.Bounds.{
  at_least, under, at_most, over, ascending-Visits, descending-Visits, descending_nil-Visits,
}
use baud.Memstore.Scan
use baud.Memstore.Batch.{Batch}
use baud.Memstore.Store
use baud.Memstore.Store.Map.{missing, delete_refines}
use baud.Memstore.Store.Atomic.{BatchDone, execute_batch_atomic}
use baud.Memstore.Locks.{World, Reach, readers, writers, begins, writes, here, next}
use baud.Memstore.Locks.Exclusive.{IsLocked}
use baud.Memstore.Locks.Isolated.{Reach-exclusive, reader_sees_no_change}

abbrev tree : BTree ℕ
tree = list_tree ℕ

abbrev item : ℕ → ℕ → DbItem ℕ
item k v = record { key = k ∷ []; value = some v }

-- The keys `b` and `a`, inserted in that order.
abbrev two_items : List (DbItem ℕ)
two_items = item b'a' 1 ∷ item b'b' 2 ∷ []

abbrev idle_db : Db tree
idle_db = record { mu = free_mutex; keys = some two_items; closed = false }

abbrev writing_state : State tree
writing_state = record {
  db = record idle_db { mu = record { writer = true; readers = 0 } };
  tx = new_tx tree true;
}

abbrev two_writes : List (Write ℕ)
two_writes = put (b'a' ∷ []) (some 7) ∷ del (b'b' ∷ []) ∷ put (b'c' ∷ []) (some 3) ∷ []

abbrev lost_writes : List (Write ℕ)
lost_writes = del (b'a' ∷ []) ∷ put (b'a' ∷ []) (some 7) ∷ []

committed :
    contents tree (commit tree (run tree two_writes writing_state)).1.db (b'a' ∷ []) ≡ some (some 7)
unfolding run step set delete commit less lt_bytes compare_bytes without insert lookup
committed = refl

rolled_back :
    contents tree (rollback tree (run tree two_writes writing_state)).1.db (b'b' ∷ [])
    ≡ some (some 2)
unfolding run step set delete rollback less lt_bytes compare_bytes without insert lookup
rolled_back = refl

lost : contents tree (rollback tree (run tree lost_writes writing_state)).1.db (b'a' ∷ []) ≡ none
unfolding run step set delete rollback less lt_bytes compare_bytes without insert lookup
lost = refl

-- Set from inside an iteration is refused.
abbrev setting_callback : Bytes → Option ℕ → Bool → State tree → Bool × Bool × State tree
setting_callback k v seen s = (
  true,
  (elim (set tree k v s).0 [ ret (err tx_iterating) ↦ true | _ ↦ false ]),
  (set tree k v s).1,
)

iterating : (ascend tree setting_callback false writing_state).1 ≡ true
unfolding ascend set less lt_bytes compare_bytes sorted insert lookup
iterating = refl

laws : IsBTree tree
laws = list_tree-IsBTree ℕ

abbrev a_key : Bytes
a_key = b'a' ∷ []

abbrev b_key : Bytes
b_key = b'b' ∷ []

c_ne_b : ◌≢◌ {A = Bytes} (b'c' ∷ []) (b'b' ∷ [])
c_ne_b = ground arith

a_ne_b : ◌≢◌ {A = Bytes} (b'a' ∷ []) (b'b' ∷ [])
a_ne_b = ground arith

two_writes_safe : NoPutAfterDel two_writes
two_writes_safe = ((c_ne_b, tt), tt)

idle_db-IsIdle : IsIdle tree idle_db two_items
idle_db-IsIdle = record { unlocked = refl; not_closed = refl; tree = refl }

writing_state-IsFresh : IsFresh tree writing_state two_items (fresh_context tree)
writing_state-IsFresh = record {
  writing = record {
    is_open = refl;
    can_write = refl;
    context = refl;
    idle = refl;
    no_rb_keys = refl;
    tree = refl;
  };
  unmanaged = refl;
  nothing_saved = refl;
}

rollback_restores_example :
    ((rollback tree (run tree two_writes writing_state)).0 ≡ ret none)
    × ((k : Bytes)
        → contents tree (rollback tree (run tree two_writes writing_state)).1.db k
          ≡ contents tree idle_db k)
    × ((rollback tree (run tree two_writes writing_state)).1.db.mu
        ≡ unlock true (record { writer = true; readers = 0 }))
    × ((rollback tree (run tree two_writes writing_state)).1.tx.db_open ≡ false)
rollback_restores_example =
    rollback_restores tree laws writing_state two_items (fresh_context tree) two_writes
      writing_state-IsFresh two_writes_safe

commit_applies_example :
    ((commit tree (run tree two_writes writing_state)).0 ≡ ret none)
    × ((k : Bytes)
        → contents tree (commit tree (run tree two_writes writing_state)).1.db k
          ≡ write_all two_writes (contents tree idle_db) k)
    × ((commit tree (run tree two_writes writing_state)).1.db.mu
        ≡ unlock true (record { writer = true; readers = 0 }))
    × ((commit tree (run tree two_writes writing_state)).1.tx.db_open ≡ false)
commit_applies_example =
    commit_applies tree laws writing_state two_items (fresh_context tree) two_writes
      writing_state-IsFresh

rollback_loses_example :
    (contents tree idle_db a_key ≡ some (some 1))
    × (contents tree (rollback tree (run tree lost_writes writing_state)).1.db a_key ≡ none)
unfolding less lt_bytes compare_bytes
rollback_loses_example =
    rollback_loses tree laws writing_state two_items (fresh_context tree) a_key (item b'a' 1)
      (some 7) writing_state-IsFresh refl

delete_refines_example :
    (db' : Db tree) × (Store.delete_key tree b_key (some idle_db)
      ≡ some (ret (missing tree (contents tree idle_db b_key)), some db'))
    × ((j : Bytes) → contents tree db' j ≡ write (del b_key) (contents tree idle_db) j)
    × (t' : List (DbItem ℕ)) × IsIdle tree db' t'
delete_refines_example = delete_refines tree laws idle_db two_items idle_db-IsIdle b_key

-- The second operation deletes a key that is not there.
abbrev bad_batch : Batch ℕ
bad_batch = record {
  ops = record { key = b_key; value = some 5 } ∷ record { key = b'z' ∷ []; value = none } ∷ [];
}

execute_batch_atomic_example : BatchDone tree idle_db bad_batch (contents tree idle_db)
execute_batch_atomic_example =
    execute_batch_atomic tree laws idle_db two_items bad_batch idle_db-IsIdle (omega arith)

abbrev saved : List (Bytes × Option (DbItem ℕ))
saved = (a_key, none) ∷ (b_key, some (item b'b' 4)) ∷ []

abbrev saved_turned : List (Bytes × Option (DbItem ℕ))
saved_turned = (b_key, some (item b'b' 4)) ∷ (a_key, none) ∷ []

saved_same : (k : Bytes) → lookup k saved ≡ lookup k saved_turned
unfolding lookup
saved_same k = ground (arith, eq_bytes_iff a_key k, eq_bytes_iff b_key k, a_ne_b)

rollback_any_order_example :
    (db1 db2 : Db tree) × (rollback_loop tree saved idle_db ≡ ret db1)
    × (rollback_loop tree saved_turned idle_db ≡ ret db2)
    × ((k : Bytes) → contents tree db1 k ≡ contents tree db2 k)
unfolding lookup
rollback_any_order_example =
    rollback_any_order tree laws saved saved_turned two_items idle_db (refl, (refl, tt)) (refl, tt)
      (refl, (refl, tt)) (refl, tt) saved_same refl

ascending-Visits_example :
    Visits {A = List ℕ} tree (ascend tree) false (λ k. true) two_items writing_state
    × Visits {A = List ℕ} tree
        (Scan.ascend_greater_or_equal tree (some b_key))
        false
        (at_least (some b_key))
        two_items
        writing_state
    × Visits {A = List ℕ} tree
        (Scan.ascend_less_than tree (some b_key))
        false
        (under (some b_key))
        two_items
        writing_state
    × Visits {A = List ℕ} tree
        (ascend_range tree (some b_key) none)
        false
        (λ k. at_least (some b_key) k && under none k)
        two_items
        writing_state
ascending-Visits_example =
    ascending-Visits tree laws two_items writing_state refl refl (some b_key) none b_key

descending-Visits_example :
    Visits {A = List ℕ} tree (Scan.descend tree) true (λ k. true) two_items writing_state
    × Visits {A = List ℕ} tree
        (Scan.descend_greater_than tree (some a_key))
        true
        (over a_key)
        two_items
        writing_state
    × Visits {A = List ℕ} tree
        (Scan.descend_less_or_equal tree (some b_key))
        true
        (at_most b_key)
        two_items
        writing_state
    × Visits {A = List ℕ} tree
        (descend_range tree (some b_key) (some a_key))
        true
        (λ k. at_most b_key k && over a_key k)
        two_items
        writing_state
descending-Visits_example =
    descending-Visits tree laws two_items writing_state refl refl b_key a_key

descending_nil-Visits_example :
    Visits {A = List ℕ} tree
      (descend_range tree none (some a_key))
      true
      (λ k. false)
      two_items
      writing_state
    × Visits {A = List ℕ} tree
        (descend_range tree (some b_key) none)
        true
        (λ k. false)
        two_items
        writing_state
    × Visits {A = List ℕ} tree
        (Scan.descend_less_or_equal tree none)
        true
        (λ k. false)
        two_items
        writing_state
descending_nil-Visits_example =
    descending_nil-Visits tree laws two_items writing_state refl refl (some b_key) (some a_key)

-- A reading transaction on a new database.
abbrev new_db : Db tree
new_db = record { mu = free_mutex; keys = some []; closed = false }

abbrev reading_world : World tree
reading_world = record {
  db = record new_db { mu = record { writer = false; readers = 1 } };
  txs = new_tx tree false ∷ [];
}

reading_world-Reach : Reach tree (record { db = new_db; txs = [] }) reading_world
unfolding begin
reading_world-Reach = next here (
    begins false (new_tx tree false) (record new_db { mu = record { writer = false; readers = 1 } })
      refl refl)

new_db_made : new_db_with_config tree (some 10) ≡ ret (ok new_db)
unfolding new_db_with_config
new_db_made = refl

Reach-exclusive_example :
    ((writers tree reading_world.txs ≡ 0)
      ⊎ ((writers tree reading_world.txs ≡ 1) × (readers tree reading_world.txs ≡ 0)))
    × ((readers tree reading_world.txs + writers tree reading_world.txs ≡ 0)
        ⊎ ((reading_world.db.closed ≡ false)
            × (t : List (DbItem ℕ)) × (reading_world.db.keys ≡ some t)))
Reach-exclusive_example =
    Reach-exclusive tree 10 new_db reading_world new_db_made reading_world-Reach

reading_world-IsLocked : IsLocked tree reading_world
reading_world-IsLocked = record {
  counted = refl;
  one_writer = refl;
  exclusive = tt;
  all_open = ((refl, refl, tt), tt);
  has_tree = tt;
}

-- The reader asks for a write.
abbrev refused_world : World tree
refused_world = record {
  db = (step tree (del a_key) (record { db = reading_world.db; tx = new_tx tree false })).db;
  txs = (step tree (del a_key) (record { db = reading_world.db; tx = new_tx tree false })).tx ∷ [];
}

reader_sees_no_change_example :
    (refused_world.db.keys ≡ reading_world.db.keys)
    × (refused_world.db.closed ≡ reading_world.db.closed)
reader_sees_no_change_example =
    reader_sees_no_change tree reading_world refused_world reading_world-IsLocked (omega arith)
      (writes [] [] (new_tx tree false) (del a_key) refl refl)
