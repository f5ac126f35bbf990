-- ===== src/Memstore/Tx/Remember.antt =====
-- What the rollback map remembers of the tree that the transaction began with.
use baud.Base.{
  ◌≡◌, refl, Option, none, some, List, [], ◌∷◌, arith, ◌==◌, ==_iff, if◌then◌else◌, Option-cases,
  inl, inr,
}
use baud.Base.Bytes.{Bytes, bytes_eq}
use baud.Base.Assoc.{lookup, lookup-insert, KeysDistinct, insert-KeysDistinct}
use baud.Memstore.Item.{DbItem}
use baud.Memstore.Tree.{BTree, IsBTree}
use baud.Memstore.Db.{WriteContext, key_item}
use baud.Memstore.View.{at, get-at, at-replace, at-delete}
use baud.Memstore.Tx.{note_set, note_delete}
use baud.Memstore.Tx.Script.{
  Write, put, del, NeverPut, NoPutAfterDel, put_item, step_tree, step_context,
}

-- The entry that a `Set` leaves for its key, from the item that it replaced and the entry before.
abbrev pub set_entry :
    {V : Type 0} → Option (DbItem V) → Option (Option (DbItem V)) → Option (Option (DbItem V))
set_entry none entry = some none
set_entry (some p) none = some (some p)
set_entry (some p) (some saved) = some saved

module _ {V : Type 0} (bt : BTree V) (w : WriteContext bt) (no_rb : w.rb_keys ≡ none) where
  lookup-note_set :
      (k j : Bytes) (prev : Option (DbItem V))
      → lookup j (note_set bt k prev w).rollback_items
        ≡ (if k == j then set_entry prev (lookup k w.rollback_items) else lookup j w.rollback_items)
  unfolding note_set
  lookup-note_set k j none = ground (arith, lookup-insert k j none w.rollback_items)
  lookup-note_set k j (some p) =
      ground (arith, lookup-insert k j (some p) w.rollback_items, ==_iff k j)

  lookup-note_delete :
      (k j : Bytes) (i : DbItem V)
      → lookup j (note_delete bt k i w).rollback_items ≡ (
          if k == j
          then set_entry (some i) (lookup k w.rollback_items)
          else lookup j w.rollback_items)
  unfolding note_delete
  lookup-note_delete k j i = ground (arith, lookup-insert k j (some i) w.rollback_items, ==_iff k j)

  note_set-KeysDistinct :
      (k : Bytes) (prev : Option (DbItem V))
      → KeysDistinct w.rollback_items
      → KeysDistinct (note_set bt k prev w).rollback_items
  unfolding note_set
  note_set-KeysDistinct k none d = ground (arith, insert-KeysDistinct k none w.rollback_items)
  note_set-KeysDistinct k (some p) d =
      ground (arith, insert-KeysDistinct k (some p) w.rollback_items)

  note_delete-KeysDistinct :
      (k : Bytes) (i : DbItem V)
      → KeysDistinct w.rollback_items
      → KeysDistinct (note_delete bt k i w).rollback_items
  unfolding note_delete
  note_delete-KeysDistinct k i d = ground (arith, insert-KeysDistinct k (some i) w.rollback_items)

module _ {V : Type 0} (bt : BTree V) (t0 : bt.Tree) where
  -- The entry of a key, the item that the tree holds there now, and what it held at first: with no
  -- entry the key is as it was, and an entry is what it was.
  abbrev pub Agrees : Option (Option (DbItem V)) → Option (DbItem V) → Option (DbItem V) → Type 0
  Agrees none now first = now ≡ first
  Agrees (some saved) now first = saved ≡ first

  -- A key that held an item at first and holds none now is not set by the calls to come.
  abbrev pub Stays :
      Option (Option (DbItem V)) → Option (DbItem V) → Bytes → List (Write V) → Type 0
  Stays (some (some i)) none k ws = NeverPut k ws
  Stays _ _ k ws = Unit

  pub record Remembers (ws : List (Write V)) (t : bt.Tree) (w : WriteContext bt) : Type 0 where
    pub distinct : KeysDistinct w.rollback_items
    pub agrees : (k : Bytes) → Agrees (lookup k w.rollback_items) (at bt t k) (at bt t0 k)
    pub stays : (k : Bytes) → Stays (lookup k w.rollback_items) (at bt t k) k ws

  module _ (laws : IsBTree bt) (t : bt.Tree) (w : WriteContext bt) (no_rb : w.rb_keys ≡ none) where
    put-Agrees :
        (k j : Bytes) (v : Option V) (ws : List (Write V))
        → Remembers (put k v ∷ ws) t w
        → Agrees
            (lookup j (step_context bt (put k v) t w).rollback_items)
            (at bt (step_tree bt (put k v) t) j)
            (at bt t0 j)
    put-Agrees k j v ws r = ground (
      arith,
      r.agrees j,
      r.stays k,
      r.agrees k,
      at-replace bt laws t (put_item bt k v) j,
      laws.replaced t (put_item bt k v),
      get-at bt laws t (put_item bt k v),
      lookup-note_set bt w no_rb k j (bt.replace_or_insert t (put_item bt k v)).0,
      ==_iff k j,
    )

    put-Stays :
        (k j : Bytes) (v : Option V) (ws : List (Write V))
        → Remembers (put k v ∷ ws) t w
        → Stays
            (lookup j (step_context bt (put k v) t w).rollback_items)
            (at bt (step_tree bt (put k v) t) j)
            j
            ws
    put-Stays k j v ws r = ground (
      arith,
      r.stays j,
      at-replace bt laws t (put_item bt k v) j,
      lookup-note_set bt w no_rb k j (bt.replace_or_insert t (put_item bt k v)).0,
      ==_iff k j,
    )

    del-Agrees :
        (k j : Bytes) (ws : List (Write V))
        → Remembers (del k ∷ ws) t w
        → Agrees
            (lookup j (step_context bt (del k) t w).rollback_items)
            (at bt (step_tree bt (del k) t) j)
            (at bt t0 j)
    del-Agrees k j ws r = elim (Option-cases (at bt t k)) [
      | inl e ↦ ground (
        arith,
        e,
        r.agrees j,
        at-delete bt laws t (key_item bt k) j,
        laws.deleted t (key_item bt k),
        ==_iff k j,
      )
      | inr e ↦ ground (
        arith,
        e.1,
        r.agrees j,
        r.agrees k,
        at-delete bt laws t (key_item bt k) j,
        laws.deleted t (key_item bt k),
        lookup-note_delete bt w no_rb k j e.0,
        ==_iff k j,
      )
    ]

    del-Stays :
        (k j : Bytes) (ws : List (Write V))
        → NeverPut k ws
        → Remembers (del k ∷ ws) t w
        → Stays
            (lookup j (step_context bt (del k) t w).rollback_items)
            (at bt (step_tree bt (del k) t) j)
            j
            ws
    del-Stays k j ws never r = elim (Option-cases (at bt t k)) [
      | inl e ↦ ground (
        arith,
        e,
        r.stays j,
        at-delete bt laws t (key_item bt k) j,
        laws.deleted t (key_item bt k),
        ==_iff k j,
      )
      | inr e ↦ ground (
        arith,
        e.1,
        r.stays j,
        at-delete bt laws t (key_item bt k) j,
        laws.deleted t (key_item bt k),
        lookup-note_delete bt w no_rb k j e.0,
        ==_iff k j,
      )
    ]

    del-KeysDistinct :
        (k : Bytes)
        → KeysDistinct w.rollback_items
        → KeysDistinct (step_context bt (del k) t w).rollback_items
    del-KeysDistinct k d = elim (Option-cases (bt.delete t (key_item bt k)).0) [
      | inl e ↦ rw e d
      | inr e ↦ rw e.1 (note_delete-KeysDistinct bt w no_rb k e.0 d)
    ]

    pub step-Remembers :
        (o : Write V) (ws : List (Write V))
        → NoPutAfterDel (o ∷ ws)
        → Remembers (o ∷ ws) t w
        → Remembers ws (step_tree bt o t) (step_context bt o t w)
    step-Remembers (put k v) ws safe r = record {
      distinct =
          note_set-KeysDistinct bt w no_rb k (bt.replace_or_insert t (put_item bt k v)).0
            r.distinct;
      agrees = λ j. put-Agrees k j v ws r;
      stays = λ j. put-Stays k j v ws r;
    }
    step-Remembers (del k) ws safe r = record {
      distinct = del-KeysDistinct k r.distinct;
      agrees = λ j. del-Agrees k j ws r;
      stays = λ j. del-Stays k j ws safe.0 r;
    }

  pub fresh-Remembers :
      (ws : List (Write V)) (w : WriteContext bt) → w.rollback_items ≡ [] → Remembers ws t0 w
  unfolding lookup
  fresh-Remembers ws w e = record {
    distinct = rw e tt;
    agrees = λ k. rw e refl;
    stays = λ k. rw e tt;
  }
