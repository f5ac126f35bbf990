-- ===== src/Memstore/Tree.antt =====
-- github.com/google/btree, which the repository imports: its operations are a parameter, and
-- `IsBTree` states what its documentation promises of them.
-- A traversal is the sequence of items that the library offers to its callback until the callback
-- returns false; the loop that stops is `each` of Scan.antt.
use baud.Base.{
  ℕ, ◌≡◌, Bool, true, not, ◌&&◌, Option, none, some, Outcome, ret, List, [], ◌∷◌, reverse, select,
  if◌then◌else◌,
}
use baud.Memstore.Item.{DbItem, Item, db_item, less}

module _ {V : Type 0} where
  -- Two items stand at the same place: neither is less than the other.
  abbrev pub same : DbItem V → DbItem V → Bool
  same a b = not (less (db_item a) (db_item b)) && not (less (db_item b) (db_item a))

  -- The item of a listing that stands at the place of `i`.
  abbrev pub find : DbItem V → List (DbItem V) → Option (DbItem V)
  find i [] = none
  find i (x ∷ xs) = if same x i then some x else find i xs

  abbrev pub AllAbove : DbItem V → List (DbItem V) → Type 0
  AllAbove x [] = Unit
  AllAbove x (y ∷ ys) = (less (db_item x) (db_item y) ≡ true) × AllAbove x ys

  abbrev pub IsSorted : List (DbItem V) → Type 0
  IsSorted [] = Unit
  IsSorted (x ∷ xs) = AllAbove x xs × IsSorted xs

-- `New` panics on a degree that is too small for it.
pub record BTree (V : Type 0) : Type 1 where
  pub Tree : Type 0
  pub new : ℕ → Outcome Tree
  pub get : Tree → DbItem V → Option (DbItem V)
  pub replace_or_insert : Tree → DbItem V → Option (DbItem V) × Tree
  pub delete : Tree → DbItem V → Option (DbItem V) × Tree
  pub ascend : Tree → List (DbItem V)
  pub ascend_greater_or_equal : Tree → Item V → List (DbItem V)
  pub ascend_less_than : Tree → Item V → List (DbItem V)
  pub ascend_range : Tree → Item V → Item V → List (DbItem V)
  pub descend : Tree → List (DbItem V)
  pub descend_greater_than : Tree → Item V → List (DbItem V)
  pub descend_less_or_equal : Tree → Item V → List (DbItem V)
  pub descend_range : Tree → Item V → Item V → List (DbItem V)

-- The documented behaviour, with the order of the items given by their `Less`.
pub record IsBTree {V : Type 0} (bt : BTree V) : Type 1 where
  pub get-new : (n : ℕ) (t : bt.Tree) (i : DbItem V) → bt.new n ≡ ret t → bt.get t i ≡ none
  pub replaced : (t : bt.Tree) (i : DbItem V) → (bt.replace_or_insert t i).0 ≡ bt.get t i
  pub get-replace :
      (t : bt.Tree) (i j : DbItem V)
      → bt.get (bt.replace_or_insert t i).1 j ≡ (if same i j then some i else bt.get t j)
  pub deleted : (t : bt.Tree) (i : DbItem V) → (bt.delete t i).0 ≡ bt.get t i
  pub get-delete :
      (t : bt.Tree) (i j : DbItem V)
      → bt.get (bt.delete t i).1 j ≡ (if same i j then none else bt.get t j)
  pub ascend-IsSorted : (t : bt.Tree) → IsSorted (bt.ascend t)
  pub get-ascend : (t : bt.Tree) (i : DbItem V) → bt.get t i ≡ find i (bt.ascend t)
  pub ascend_greater_or_equal_lem :
      (t : bt.Tree) (a : Item V)
      → bt.ascend_greater_or_equal t a ≡ select (λ x. not (less (db_item x) a)) (bt.ascend t)
  pub ascend_less_than_lem :
      (t : bt.Tree) (b : Item V)
      → bt.ascend_less_than t b ≡ select (λ x. less (db_item x) b) (bt.ascend t)
  pub ascend_range_lem :
      (t : bt.Tree) (a b : Item V)
      → bt.ascend_range t a b
        ≡ select (λ x. not (less (db_item x) a) && less (db_item x) b) (bt.ascend t)
  pub descend_lem : (t : bt.Tree) → bt.descend t ≡ reverse (bt.ascend t)
  pub descend_greater_than_lem :
      (t : bt.Tree) (a : Item V)
      → bt.descend_greater_than t a ≡ reverse (select (λ x. less a (db_item x)) (bt.ascend t))
  pub descend_less_or_equal_lem :
      (t : bt.Tree) (b : Item V)
      → bt.descend_less_or_equal t b
        ≡ reverse (select (λ x. not (less b (db_item x))) (bt.ascend t))
  pub descend_range_lem :
      (t : bt.Tree) (b a : Item V)
      → bt.descend_range t b a
        ≡ reverse (select (λ x. not (less b (db_item x)) && less a (db_item x)) (bt.ascend t))
