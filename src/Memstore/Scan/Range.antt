-- ===== src/Memstore/Scan/Range.antt =====
-- What an iteration visits, for a callback that leaves the transaction alone.
use baud.Base.{
  ◌≡◌, refl, ap, Bool, true, false, Option, none, some, List, [], ◌∷◌, reverse, arith, ret, select,
  Bool-cases, inl, inr, if◌then◌else◌,
}
use baud.Base.Bytes.{Bytes, bytes_eq, eq_bytes, eq_bytes_iff}
use baud.Memstore.Item.{DbItem}
use baud.Memstore.Tree.{BTree, IsBTree, find, AllAbove, IsSorted}
use baud.Memstore.Db.{State, key_item}
use baud.Memstore.View.{at, same-eq-keys}
use baud.Memstore.Scan.{Slice, Reply, IterFunc, each, scan_items, count_up, count_down, scan}

module _ {V : Type 0} where
  AllAbove-select :
      (p : DbItem V → Bool) (x : DbItem V) (xs : List (DbItem V))
      → AllAbove x xs
      → AllAbove x (select p xs)
  AllAbove-select p x [] a = tt
  AllAbove-select p x (y ∷ ys) a = ground (arith, AllAbove-select p x ys a.1)

  pub select-IsSorted :
      (p : DbItem V → Bool) (xs : List (DbItem V)) → IsSorted xs → IsSorted (select p xs)
  select-IsSorted p [] s = tt
  select-IsSorted p (x ∷ xs) s =
      ground (arith, select-IsSorted p xs s.1, AllAbove-select p x xs s.0)

  -- A selection by the key finds what passes.
  pub find-select :
      (p : Bytes → Bool) (i : DbItem V) (xs : List (DbItem V))
      → find i (select (λ x. p x.key) xs) ≡ (if p i.key then find i xs else none)
  find-select p i [] = ground arith
  find-select p i (x ∷ xs) = elim (Bool-cases (eq_bytes x.key i.key)) [
    | inl e ↦
        let k = (eq_bytes_iff x.key i.key).0 e in
        ground (arith, find-select p i xs, same-eq-keys x i, ap p k)
    | inr e ↦ ground (arith, find-select p i xs, same-eq-keys x i)
  ]

-- A callback that reads and writes its own memory only.
abbrev pub Watcher : Type 0 → Type 0 → Type 0
Watcher V A = Bytes → Option V → A → Bool × A

module _ {V A : Type 0} where
  -- The memory of a watcher that is called on each item until it returns false.
  abbrev pub watch : Watcher V A → List (DbItem V) → A → A
  watch f [] a = a
  watch f (x ∷ xs) a = let r = f x.key x.value a in elim r.0 [ true ↦ watch f xs r.1 | false ↦ r.1 ]

-- The order in which an ascending or a descending iteration takes a listing.
abbrev pub ordered : {V : Type 0} → Bool → List (DbItem V) → List (DbItem V)
ordered true xs = reverse xs
ordered false xs = xs

module _ {V : Type 0} (bt : BTree V) where
  count_up_down : (s : State bt) → count_down bt (count_up bt s) ≡ s
  count_up_down s = ground arith

module _ {V A : Type 0} (bt : BTree V) where
  abbrev pub watcher : Watcher V A → IterFunc bt A
  watcher f k v a s = let r = f k v a in (r.0, r.1, s)

  each-watcher :
      (f : Watcher V A) (xs : List (DbItem V)) (a : A) (s : State bt)
      → each bt xs (watcher f) a s ≡ (watch f xs a, s)
  unfolding each
  each-watcher f [] a s = refl
  each-watcher f (x ∷ xs) a s = ground (arith, each-watcher f xs (f x.key x.value a).1 s)

  -- The iteration visits exactly the items of the tree whose keys pass the test, each once and in
  -- the order of the keys, until the callback returns false; it returns no error and leaves the
  -- database and the transaction as they were.
  pub record Visits (iteration : IterFunc bt A → A → State bt → Reply bt A) (desc : Bool)
      (test : Bytes → Bool) (t : bt.Tree) (s : State bt) : Type 0 where
    pub items : List (DbItem V)
    pub sorted : IsSorted items
    pub exact : (k : Bytes) → find (key_item bt k) items ≡ (if test k then at bt t k else none)
    pub calls :
        (f : Watcher V A) (a : A)
        → iteration (watcher f) a s ≡ (ret none, watch f (ordered desc items) a, s)

  module _ (laws : IsBTree bt) where
    pub scan-Visits :
        (desc gt lt : Bool) (start stop : Slice) (test : Bytes → Bool) (t : bt.Tree) (s : State bt)
        → s.tx.db_open ≡ true
        → s.db.keys ≡ some t
        → scan_items bt desc gt lt start stop t
          ≡ ordered desc (select (λ x. test x.key) (bt.ascend t))
        → Visits (scan bt desc gt lt start stop) desc test t s
    unfolding scan
    scan-Visits desc gt lt start stop test t s open_tx has e = record {
      items = select (λ x. test x.key) (bt.ascend t);
      sorted = select-IsSorted (λ x. test x.key) (bt.ascend t) (laws.ascend-IsSorted t);
      exact = λ k.
          rw (find-select test (key_item bt k) (bt.ascend t), ← laws.get-ascend t (key_item bt k))
            refl;
      calls = λ f a. ground (
        arith,
        each-watcher f (scan_items bt desc gt lt start stop t) a (count_up bt s),
        count_up_down bt s,
      );
    }
