-- ===== src/Memstore/Scan/Bounds.antt =====
-- The ranges of the eight iterations of btree.go.
use baud.Base.{
  ◌≡◌, refl, ap, sym, ◌∙◌, Bool, true, false, not, ◌&&◌, none, some, List, [], ◌∷◌, reverse, arith,
  select,
}
use mathlib.Core.Path.{fun_ext}
use baud.Base.Bytes.{Bytes, lt_bytes}
use baud.Memstore.Item.{DbItem, db_item, less}
use baud.Memstore.Tree.{BTree, IsBTree}
use baud.Memstore.Db.{State}
use baud.Memstore.Scan.{
  Slice, start_item, stop_item, ascend, ascend_greater_or_equal, ascend_less_than, ascend_range,
  descend, descend_greater_than, descend_less_or_equal, descend_range,
}
use baud.Memstore.Scan.Range.{Visits, scan-Visits}

-- A key against a limit; a nil limit of an ascending iteration is none.
abbrev pub at_least : Slice → Bytes → Bool
at_least none k = true
at_least (some b) k = not (lt_bytes k b)

abbrev pub under : Slice → Bytes → Bool
under none k = true
under (some b) k = lt_bytes k b

abbrev pub at_most : Bytes → Bytes → Bool
at_most b k = not (lt_bytes b k)

abbrev pub over : Bytes → Bytes → Bool
over b k = lt_bytes b k

module _ {V : Type 0} where
  select_all : (xs : List (DbItem V)) → select (λ x. true) xs ≡ xs
  select_all [] = refl
  select_all (x ∷ xs) = ap (λ l. x ∷ l) (select_all xs)

  select_none : (xs : List (DbItem V)) → select (λ x. false) xs ≡ []
  select_none [] = refl
  select_none (x ∷ xs) = select_none xs

  at_least_lem :
      (lo : Slice) (x : DbItem V) → not (less (db_item x) (start_item lo)) ≡ at_least lo x.key
  unfolding less
  at_least_lem none x = refl
  at_least_lem (some b) x = refl

  under_lem : (hi : Slice) (x : DbItem V) → less (db_item x) (stop_item hi) ≡ under hi x.key
  unfolding less
  under_lem none x = refl
  under_lem (some b) x = refl

  over_lem : (b : Bytes) (x : DbItem V) → less (start_item (some b)) (db_item x) ≡ over b x.key
  unfolding less
  over_lem b x = refl

  -- Equal tests select the same.
  select_ext :
      (p q : DbItem V → Bool) (xs : List (DbItem V))
      → ((x : DbItem V) → p x ≡ q x)
      → select p xs ≡ select q xs
  select_ext p q xs h = ap (λ r. select r xs) (fun_ext h)

module _ {V A : Type 0} (bt : BTree V) (laws : IsBTree bt) (t : bt.Tree) (s : State bt)
    (open_tx : s.tx.db_open ≡ true) (has : s.db.keys ≡ some t) where
  -- In an open transaction, for each of the ascending iterations: it visits exactly the items with
  -- the keys that its name says, once each and in ascending order, until the callback returns
  -- false, and leaves the database and the transaction as they were; a nil limit of a range is no
  -- limit.
  pub ascending-Visits :
      (lo hi : Slice) (pivot : Bytes)
      → Visits {A = A} bt (ascend bt) false (λ k. true) t s
        × Visits {A = A} bt (ascend_greater_or_equal bt lo) false (at_least lo) t s
        × Visits {A = A} bt (ascend_less_than bt (some pivot)) false (under (some pivot)) t s
        × Visits {A = A} bt (ascend_range bt lo hi) false (λ k. at_least lo k && under hi k) t s
  unfolding ascend ascend_greater_or_equal ascend_less_than ascend_range
  ascending-Visits lo hi pivot = (
    scan-Visits bt laws false false false none none (λ k. true) t s open_tx has
        (sym (select_all (bt.ascend t))),
    scan-Visits bt laws false true false lo none (at_least lo) t s open_tx has (
        laws.ascend_greater_or_equal_lem t (start_item lo)
        ∙ select_ext _ _ (bt.ascend t) (at_least_lem lo)),
    scan-Visits bt laws false false true (some pivot) none (under (some pivot)) t s open_tx has (
        laws.ascend_less_than_lem t (start_item (some pivot))
        ∙ select_ext _ _ (bt.ascend t) (under_lem (some pivot))),
    scan-Visits bt laws false true true lo hi (λ k. at_least lo k && under hi k) t s open_tx has
        (laws.ascend_range_lem t (start_item lo) (stop_item hi)
          ∙ select_ext _ _ (bt.ascend t) (λ x. rw (at_least_lem lo x, under_lem hi x) refl)),
  )

  -- In an open transaction, for each of the descending iterations with limits that are not nil: it
  -- visits exactly the items with the keys that its name says, once each and in descending order,
  -- until the callback returns false, and leaves the database and the transaction as they were.
  pub descending-Visits :
      (hi lo : Bytes)
      → Visits {A = A} bt (descend bt) true (λ k. true) t s
        × Visits {A = A} bt (descend_greater_than bt (some lo)) true (over lo) t s
        × Visits {A = A} bt (descend_less_or_equal bt (some hi)) true (at_most hi) t s
        × Visits {A = A} bt
            (descend_range bt (some hi) (some lo))
            true
            (λ k. at_most hi k && over lo k)
            t
            s
  unfolding descend descend_greater_than descend_less_or_equal descend_range
  descending-Visits hi lo = (
    scan-Visits bt laws true false false none none (λ k. true) t s open_tx has
        (laws.descend_lem t ∙ ap reverse (sym (select_all (bt.ascend t)))),
    scan-Visits bt laws true true false (some lo) none (over lo) t s open_tx has (
        laws.descend_greater_than_lem t (start_item (some lo))
        ∙ ap reverse (select_ext _ _ (bt.ascend t) (over_lem lo))),
    scan-Visits bt laws true false true (some hi) none (at_most hi) t s open_tx has (
        laws.descend_less_or_equal_lem t (start_item (some hi))
        ∙ ap reverse (select_ext _ _ (bt.ascend t) (λ x. rw (over_lem hi x) refl))),
    scan-Visits bt laws true true true (some hi) (some lo) (λ k. at_most hi k && over lo k) t s
        open_tx has
        (laws.descend_range_lem t (start_item (some hi)) (stop_item (some lo))
          ∙ ap reverse
              (select_ext _ _ (bt.ascend t) (λ x. rw (over_lem hi x, over_lem lo x) refl))),
  )

  -- In an open transaction a descending range with a nil limit, and `DescendLessOrEqual` of nil,
  -- visit no item, whatever the tree holds.
  pub descending_nil-Visits :
      (hi lo : Slice)
      → Visits {A = A} bt (descend_range bt none lo) true (λ k. false) t s
        × Visits {A = A} bt (descend_range bt hi none) true (λ k. false) t s
        × Visits {A = A} bt (descend_less_or_equal bt none) true (λ k. false) t s
  unfolding descend_range descend_less_or_equal less
  descending_nil-Visits hi lo = (
    scan-Visits bt laws true true true none lo (λ k. false) t s open_tx has
        (laws.descend_range_lem t (start_item none) (stop_item lo)),
    scan-Visits bt laws true true true hi none (λ k. false) t s open_tx has
        (laws.descend_range_lem t (start_item hi) (stop_item none)
          ∙ ap reverse (select_ext _ (λ x. false) (bt.ascend t) (λ x. ground arith))),
    scan-Visits bt laws true false true none none (λ k. false) t s open_tx has
        (laws.descend_less_or_equal_lem t (start_item none)),
  )
