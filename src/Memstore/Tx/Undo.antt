-- ===== src/Memstore/Tx/Undo.antt =====
-- `rollbackInner`: what the loop over the rollback map leaves in the tree.
use baud.Base.{
  ◌≡◌, refl, sym, ap, ◌∙◌, sym, ◌∙◌, Option, none, some, List, [], ◌∷◌, arith, ==_iff, ret,
}
use baud.Base.Bytes.{Bytes, bytes_eq}
use baud.Base.Assoc.{lookup, KeysDistinct}
use baud.Memstore.Item.{DbItem}
use baud.Memstore.Tree.{BTree, IsBTree}
use baud.Memstore.Db.{Db, key_item}
use baud.Memstore.View.{at, value_of, contents, at-replace, at-delete}
use baud.Memstore.Tx.{rollback_loop}

module _ {V : Type 0} (bt : BTree V) where
  -- An item is saved under its own key.
  abbrev pub IsKeyed : List (Bytes × Option (DbItem V)) → Type 0
  IsKeyed [] = Unit
  IsKeyed ((k, none) ∷ m) = IsKeyed m
  IsKeyed ((k, some i) ∷ m) = (i.key ≡ k) × IsKeyed m

  -- The tree after the loop.
  unfoldable pub undone : List (Bytes × Option (DbItem V)) → bt.Tree → bt.Tree
  undone [] t = t
  undone ((k, none) ∷ m) t = undone m (bt.delete t (key_item bt k)).1
  undone ((k, some i) ∷ m) t = undone m (bt.replace_or_insert (bt.delete t (key_item bt k)).1 i).1

  pub rollback_loop-undone :
      (m : List (Bytes × Option (DbItem V))) (t : bt.Tree) (db : Db bt)
      → rollback_loop bt m (record db { keys = some t })
        ≡ ret (record db { keys = some (undone m t) })
  unfolding rollback_loop undone
  rollback_loop-undone [] t db = refl
  rollback_loop-undone ((k, none) ∷ m) t db =
      rollback_loop-undone m (bt.delete t (key_item bt k)).1 db
  rollback_loop-undone ((k, some i) ∷ m) t db =
      rollback_loop-undone m (bt.replace_or_insert (bt.delete t (key_item bt k)).1 i).1 db

  abbrev pub or_current : Option (Option (DbItem V)) → Option (DbItem V) → Option (DbItem V)
  or_current none cur = cur
  or_current (some saved) cur = saved

  module _ (laws : IsBTree bt) where
    -- After the loop a key with an entry holds what the entry saved, in whatever order the
    -- entries come, and any other key what it held.
    pub at-undone :
        (m : List (Bytes × Option (DbItem V))) (t : bt.Tree) (k : Bytes)
        → KeysDistinct m
        → IsKeyed m
        → at bt (undone m t) k ≡ or_current (lookup k m) (at bt t k)
    unfolding undone lookup
    at-undone [] t k d e = refl
    at-undone ((j, none) ∷ m) t k d e = ground (
      arith,
      at-undone m (bt.delete t (key_item bt j)).1 k,
      ==_iff j k,
      at-delete bt laws t (key_item bt j) k,
    )
    at-undone ((j, some i) ∷ m) t k d e = ground (
      arith,
      at-undone m (bt.replace_or_insert (bt.delete t (key_item bt j)).1 i).1 k,
      ==_iff j k,
      ==_iff i.key k,
      at-delete bt laws t (key_item bt j) k,
      at-replace bt laws (bt.delete t (key_item bt j)).1 i k,
    )

    -- The rollback map has no order of its own: two listings of the same entries, each with one
    -- entry for a key and every item under its own key, roll a database with a tree back to the
    -- same keys and values, with no panic.
    pub rollback_any_order :
        (m m' : List (Bytes × Option (DbItem V))) (t : bt.Tree) (db : Db bt)
        → KeysDistinct m
        → IsKeyed m
        → KeysDistinct m'
        → IsKeyed m'
        → ((k : Bytes) → lookup k m ≡ lookup k m')
        → db.keys ≡ some t
        → (db1 db2 : Db bt) × (rollback_loop bt m db ≡ ret db1)
          × (rollback_loop bt m' db ≡ ret db2)
          × ((k : Bytes) → contents bt db1 k ≡ contents bt db2 k)
    rollback_any_order m m' t db d e d' e' same has =
        let open_db : record db { keys = some t } ≡ db = ground arith in
        (
          record db { keys = some (undone m t) },
          record db { keys = some (undone m' t) },
          ap (rollback_loop bt m) (sym open_db) ∙ rollback_loop-undone m t db,
          ap (rollback_loop bt m') (sym open_db) ∙ rollback_loop-undone m' t db,
          λ k. ap (value_of bt) (
              at-undone m t k d e
              ∙ ap (λ o. or_current o (at bt t k)) (same k)
              ∙ sym (at-undone m' t k d' e')),
        )
