-- ===== src/Memstore/Tx/Script.antt =====
-- A run of `Set` and `Delete` calls in an open writable transaction: what it does to the tree, and
-- what the rollback map remembers.
use baud.Base.{
  ◌≡◌, ◌≢◌, ap, true, Option, none, some, List, [], ◌∷◌, arith, ◌==◌, ret, ok, if◌then◌else◌,
  Option-cases, inl, inr,
}
use baud.Base.Bytes.{Bytes, bytes_eq}
use baud.Memstore.Item.{DbItem}
use baud.Memstore.Tree.{BTree, IsBTree}
use baud.Memstore.Db.{WriteContext, State, key_item}
use baud.Memstore.View.{Contents, at}
use baud.Memstore.Tx.{set, delete, note_set, note_delete, set_reply, value_or_not_found}

pub data Write (V : Type 0) : Type 0 where
  put : Bytes → Option V → Write V
  del : Bytes → Write V

module _ {V : Type 0} where
  -- The abstract meaning of a write, on a map as a function.
  abbrev pub write : Write V → Contents V → Contents V
  write (put k v) c j = if k == j then some v else c j
  write (del k) c j = if k == j then none else c j

  abbrev pub write_all : List (Write V) → Contents V → Contents V
  write_all [] c = c
  write_all (w ∷ ws) c = write_all ws (write w c)

  -- No later call sets the key.
  abbrev pub NeverPut : Bytes → List (Write V) → Type 0
  NeverPut k [] = Unit
  NeverPut k (put j v ∷ ws) = (j ≢ k) × NeverPut k ws
  NeverPut k (del j ∷ ws) = NeverPut k ws

  -- No key is set after it was deleted.
  abbrev pub NoPutAfterDel : List (Write V) → Type 0
  NoPutAfterDel [] = Unit
  NoPutAfterDel (put k v ∷ ws) = NoPutAfterDel ws
  NoPutAfterDel (del k ∷ ws) = NeverPut k ws × NoPutAfterDel ws

module _ {V : Type 0} (bt : BTree V) where
  unfoldable pub step : Write V → State bt → State bt
  step (put k v) s = (set bt k v s).1
  step (del k) s = (delete bt k s).1

  unfoldable pub run : List (Write V) → State bt → State bt
  run [] s = s
  run (w ∷ ws) s = run ws (step w s)

  -- An open writable transaction over the tree `t` that no iteration is using.
  pub record IsWriting (s : State bt) (t : bt.Tree) (w : WriteContext bt) : Type 0 where
    pub is_open : s.tx.db_open ≡ true
    pub can_write : s.tx.writable ≡ true
    pub context : s.tx.wc ≡ some w
    pub idle : w.iter_count ≡ 0
    pub no_rb_keys : w.rb_keys ≡ none
    pub tree : s.db.keys ≡ some t

  abbrev pub put_item : Bytes → Option V → DbItem V
  put_item k v = record { key = k; value = v }

  abbrev pub step_tree : Write V → bt.Tree → bt.Tree
  step_tree (put k v) t = (bt.replace_or_insert t (put_item k v)).1
  step_tree (del k) t = (bt.delete t (key_item bt k)).1

  abbrev pub note_found : Bytes → Option (DbItem V) → WriteContext bt → WriteContext bt
  note_found k none w = w
  note_found k (some i) w = note_delete bt k i w

  abbrev pub step_context : Write V → bt.Tree → WriteContext bt → WriteContext bt
  step_context (put k v) t w = note_set bt k (bt.replace_or_insert t (put_item k v)).0 w
  step_context (del k) t w = note_found k (bt.delete t (key_item bt k)).0 w

  pub set-writing :
      (k : Bytes) (v : Option V) (s : State bt) (t : bt.Tree) (w : WriteContext bt)
      → IsWriting s t w
      → set bt k v s ≡ (
        ret (ok (set_reply bt (bt.replace_or_insert t (put_item k v)).0 w)),
        record {
          db = record s.db { keys = some (step_tree (put k v) t) };
          tx = record s.tx { wc = some (step_context (put k v) t w) };
        },
      )
  unfolding set
  set-writing k v s t w h = ground arith

  pub delete-writing :
      (k : Bytes) (s : State bt) (t : bt.Tree) (w : WriteContext bt)
      → IsWriting s t w
      → (delete bt k s).1 ≡ record {
        db = record s.db { keys = some (step_tree (del k) t) };
        tx = record s.tx { wc = some (step_context (del k) t w) };
      }
  unfolding delete
  delete-writing k s t w h = elim (Option-cases (bt.delete t (key_item bt k)).0) [
    | inl e ↦ ground (arith, e)
    | inr e ↦ ground (arith, e.1)
  ]

  pub step-writing :
      (o : Write V) (s : State bt) (t : bt.Tree) (w : WriteContext bt)
      → IsWriting s t w
      → step o s ≡ record {
        db = record s.db { keys = some (step_tree o t) };
        tx = record s.tx { wc = some (step_context o t w) };
      }
  unfolding step
  step-writing (put k v) s t w h = ap (λ r. r.1) (set-writing k v s t w h)
  step-writing (del k) s t w h = delete-writing k s t w h

  pub step_context_kept :
      (o : Write V) (t : bt.Tree) (w : WriteContext bt)
      → w.rb_keys ≡ none
      → ((step_context o t w).iter_count ≡ w.iter_count) × ((step_context o t w).rb_keys ≡ none)
  unfolding note_set note_delete
  step_context_kept (put k v) t w h = ground arith
  step_context_kept (del k) t w h = ground arith

  pub step-IsWriting :
      (o : Write V) (s : State bt) (t : bt.Tree) (w : WriteContext bt)
      → IsWriting s t w
      → IsWriting (step o s) (step_tree o t) (step_context o t w)
  step-IsWriting o s t w h = ground (arith, step-writing o s t w h, step_context_kept o t w)

  -- A call leaves the lock and the mode of the transaction as they were.
  pub step_frame :
      (o : Write V) (s : State bt) (t : bt.Tree) (w : WriteContext bt)
      → IsWriting s t w
      → ((step o s).db.mu ≡ s.db.mu)
        × ((step o s).db.closed ≡ s.db.closed)
        × ((step o s).tx.funcd ≡ s.tx.funcd)
  step_frame o s t w h = ground (arith, step-writing o s t w h)

  module _ (laws : IsBTree bt) where
    pub delete_reply :
        (k : Bytes) (s : State bt) (t : bt.Tree) (w : WriteContext bt)
        → IsWriting s t w
        → (delete bt k s).0 ≡ ret (value_or_not_found bt (at bt t k))
    unfolding delete
    delete_reply k s t w h = elim (Option-cases (at bt t k)) [
      | inl e ↦ ground (arith, e, laws.deleted t (key_item bt k))
      | inr e ↦ ground (arith, e.1, laws.deleted t (key_item bt k))
    ]
