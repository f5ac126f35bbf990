-- ===== src/Memstore/ListTree.antt =====
-- A tree that meets `IsBTree`: the items as a list in the order of insertion, sorted when it is
-- read. It instantiates the parameter in the witnesses.
use mathlib.Core.Path.{◌≡◌, refl, sym}
use baud.Base.{
  true, not, ◌&&◌, none, some, ltb, ret, panic, List, [], ◌∷◌, reverse, select, arith,
  if◌then◌else◌,
}
use baud.Base.Bytes.{lt_bytes_trans, lt_bytes_asymm, lt_bytes_total}
use baud.Memstore.Item.{DbItem, db_item, less}
use baud.Memstore.Tree.{same, find, AllAbove, IsSorted, BTree, IsBTree}

module _ {V : Type 0} where
  -- Puts an item at its place, over an item that stands there.
  unfoldable pub place : DbItem V → List (DbItem V) → List (DbItem V)
  unfolding less
  place i [] = i ∷ []
  place i (x ∷ xs) =
      if less (db_item i) (db_item x)
      then i ∷ x ∷ xs
      else if less (db_item x) (db_item i)
      then x ∷ place i xs
      else i ∷ xs

  unfoldable pub sorted : List (DbItem V) → List (DbItem V)
  unfolding place
  sorted [] = []
  sorted (x ∷ xs) = place x (sorted xs)

  unfoldable pub without : DbItem V → List (DbItem V) → List (DbItem V)
  unfolding less
  without i [] = []
  without i (x ∷ xs) = let rest = without i xs in if same x i then rest else x ∷ rest

  AllAbove-trans :
      (i x : DbItem V) (xs : List (DbItem V))
      → less (db_item i) (db_item x) ≡ true
      → AllAbove x xs
      → AllAbove i xs
  unfolding less
  AllAbove-trans i x [] h a = tt
  AllAbove-trans i x (y ∷ ys) h a =
      (lt_bytes_trans i.key x.key y.key h a.0, AllAbove-trans i x ys h a.1)

  -- An item at the same place has the same items above it.
  AllAbove-same :
      (i x : DbItem V) (xs : List (DbItem V)) → i.key ≡ x.key → AllAbove x xs → AllAbove i xs
  unfolding less
  AllAbove-same i x [] e a = tt
  AllAbove-same i x (y ∷ ys) e a = (rw e a.0, AllAbove-same i x ys e a.1)

  AllAbove-place :
      (i x : DbItem V) (xs : List (DbItem V))
      → less (db_item x) (db_item i) ≡ true
      → AllAbove x xs
      → AllAbove x (place i xs)
  unfolding place less
  AllAbove-place i x [] h a = (h, tt)
  AllAbove-place i x (y ∷ ys) h a = ground (arith, AllAbove-place i x ys)

  place-IsSorted : (i : DbItem V) (xs : List (DbItem V)) → IsSorted xs → IsSorted (place i xs)
  unfolding place less
  place-IsSorted i [] s = (tt, tt)
  place-IsSorted i (x ∷ xs) s = ground (
    arith,
    place-IsSorted i xs,
    AllAbove-place i x xs,
    AllAbove-trans i x xs,
    AllAbove-same i x xs,
    lt_bytes_total i.key x.key,
  )

  sorted-IsSorted : (xs : List (DbItem V)) → IsSorted (sorted xs)
  unfolding sorted
  sorted-IsSorted [] = tt
  sorted-IsSorted (x ∷ xs) = place-IsSorted x (sorted xs) (sorted-IsSorted xs)

  find-AllAbove :
      (i j : DbItem V) (xs : List (DbItem V)) → AllAbove i xs → same i j ≡ true → find j xs ≡ none
  unfolding less
  find-AllAbove i j [] a h = refl
  find-AllAbove i j (y ∷ ys) a h =
      ground (arith, find-AllAbove i j ys, lt_bytes_total i.key j.key, lt_bytes_asymm i.key y.key)

  find-place :
      (i j : DbItem V) (xs : List (DbItem V))
      → IsSorted xs
      → find j (place i xs) ≡ (if same i j then some i else find j xs)
  unfolding place less
  find-place i j [] s = refl
  find-place i j (x ∷ xs) s = ground (
    arith,
    find-place i j xs,
    lt_bytes_total i.key x.key,
    lt_bytes_total i.key j.key,
    lt_bytes_total x.key j.key,
    lt_bytes_asymm i.key x.key,
    lt_bytes_asymm x.key i.key,
  )

  find-sorted : (j : DbItem V) (xs : List (DbItem V)) → find j (sorted xs) ≡ find j xs
  unfolding sorted
  find-sorted j [] = refl
  find-sorted j (x ∷ xs) =
      ground (arith, find-place x j (sorted xs), sorted-IsSorted xs, find-sorted j xs)

  find-without :
      (i j : DbItem V) (xs : List (DbItem V))
      → find j (without i xs) ≡ (if same i j then none else find j xs)
  unfolding without less
  find-without i j [] = ground arith
  find-without i j (x ∷ xs) = ground (
    arith,
    find-without i j xs,
    lt_bytes_total i.key j.key,
    lt_bytes_total x.key i.key,
    lt_bytes_total x.key j.key,
  )

module _ (V : Type 0) where
  abbrev pub list_tree : BTree V
  list_tree = record {
    Tree = List (DbItem V);
    new = λ n. if ltb n 2 then panic else ret [];
    get = λ t i. find i t;
    replace_or_insert = λ t i. (find i t, i ∷ t);
    delete = λ t i. (find i t, without i t);
    ascend = λ t. sorted t;
    ascend_greater_or_equal = λ t a. select (λ x. not (less (db_item x) a)) (sorted t);
    ascend_less_than = λ t b. select (λ x. less (db_item x) b) (sorted t);
    ascend_range = λ t a b. select (λ x. not (less (db_item x) a) && less (db_item x) b) (sorted t);
    descend = λ t. reverse (sorted t);
    descend_greater_than = λ t a. reverse (select (λ x. less a (db_item x)) (sorted t));
    descend_less_or_equal = λ t b. reverse (select (λ x. not (less b (db_item x))) (sorted t));
    descend_range =
        λ t b a. reverse (select (λ x. not (less b (db_item x)) && less a (db_item x)) (sorted t));
  }

  pub list_tree-IsBTree : IsBTree list_tree
  list_tree-IsBTree = record {
    get-new = λ n t i h. ground (arith, h);
    replaced = λ t i. refl;
    get-replace = λ t i j. refl;
    deleted = λ t i. refl;
    get-delete = λ t i j. find-without i j t;
    ascend-IsSorted = λ t. sorted-IsSorted t;
    get-ascend = λ t i. sym (find-sorted i t);
    ascend_greater_or_equal_lem = λ t a. refl;
    ascend_less_than_lem = λ t b. refl;
    ascend_range_lem = λ t a b. refl;
    descend_lem = λ t. refl;
    descend_greater_than_lem = λ t a. refl;
    descend_less_or_equal_lem = λ t b. refl;
    descend_range_lem = λ t b a. refl;
  }
