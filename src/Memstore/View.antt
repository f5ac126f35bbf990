-- ===== src/Memstore/View.antt =====
-- What a client sees of a database: the value of each key.
use baud.Base.{◌≡◌, refl, sym, ◌∙◌, Option, none, some, List, [], ◌∷◌, arith, ◌==◌, if◌then◌else◌}
use baud.Base.Bytes.{Bytes, bytes_eq, eq_bytes, eq_bytes_iff, lt_bytes_irrefl, lt_bytes_total}
use baud.Memstore.Item.{DbItem, less}
use baud.Memstore.Tree.{same, find, BTree, IsBTree}
use baud.Memstore.Db.{Db, key_item}

module _ {V : Type 0} where
  -- Two items stand at the same place exactly when their keys are equal.
  pub same-eq-keys : (i j : DbItem V) → same i j ≡ eq_bytes i.key j.key
  unfolding less
  same-eq-keys i j =
      ground (arith, lt_bytes_total i.key j.key, eq_bytes_iff i.key j.key, lt_bytes_irrefl i.key)

  find-key :
      (i : DbItem V) (xs : List (DbItem V)) (x : DbItem V) → find i xs ≡ some x → x.key ≡ i.key
  find-key i [] x h = cc
  find-key i (y ∷ ys) x h =
      ground (arith, same-eq-keys y i, eq_bytes_iff y.key i.key, find-key i ys x)

  find_same_key : (i j : DbItem V) (xs : List (DbItem V)) → i.key ≡ j.key → find i xs ≡ find j xs
  unfolding less
  find_same_key i j [] e = refl
  find_same_key i j (y ∷ ys) e = ground (arith, find_same_key i j ys)

-- A map from keys to values, as a function.
abbrev pub Contents : Type 0 → Type 0
Contents V = Bytes → Option (Option V)

module _ {V : Type 0} (bt : BTree V) where
  abbrev pub at : bt.Tree → Bytes → Option (DbItem V)
  at t k = bt.get t (key_item bt k)

  abbrev pub value_of : Option (DbItem V) → Option (Option V)
  value_of none = none
  value_of (some i) = some i.value

  -- What the database holds at a key; nothing once it is closed.
  abbrev pub contents : Db bt → Contents V
  contents db k = elim db.keys [ none ↦ none | some t ↦ value_of (at t k) ]

  module _ (laws : IsBTree bt) where
    pub get-at : (t : bt.Tree) (i : DbItem V) → bt.get t i ≡ at t i.key
    get-at t i =
        laws.get-ascend t i
        ∙ find_same_key i (key_item bt i.key) (bt.ascend t) refl
        ∙ sym (laws.get-ascend t (key_item bt i.key))

    pub at-key : (t : bt.Tree) (k : Bytes) (i : DbItem V) → at t k ≡ some i → i.key ≡ k
    at-key t k i h =
        find-key (key_item bt k) (bt.ascend t) i (sym (laws.get-ascend t (key_item bt k)) ∙ h)

    pub at-replace :
        (t : bt.Tree) (i : DbItem V) (k : Bytes)
        → at (bt.replace_or_insert t i).1 k ≡ (if i.key == k then some i else at t k)
    at-replace t i k = rw (laws.get-replace, same-eq-keys)

    pub at-delete :
        (t : bt.Tree) (i : DbItem V) (k : Bytes)
        → at (bt.delete t i).1 k ≡ (if i.key == k then none else at t k)
    at-delete t i k = rw (laws.get-delete, same-eq-keys)
