-- ===== src/ZoneMaster/PartitionTree/ListBtree.antt =====
-- A tree that meets `IsBtree`: the list of its items, in order. It instantiates the parameter in the
-- witnesses.
use baud.Base.{
  ℕ, ◌≡◌, refl, Bool, true, not, ◌||◌, Bool-cases, inl, inr, List, [], ◌∷◌, reverse, select, length,
  ltb, arith,
}
use baud.ZoneMaster.Partition.{Partition}
use baud.ZoneMaster.PartitionTree.{less, place, AllStartAfter, IsDescending, Btree, IsBtree}

AllStartAfter-trans :
    (low high : ℕ) (ps : List Partition)
    → ltb low high ≡ true
    → AllStartAfter high ps
    → AllStartAfter low ps
AllStartAfter-trans low high [] h a = tt
AllStartAfter-trans low high (p ∷ ps) h a =
    (ground (arith, h, a.0), AllStartAfter-trans low high ps h a.1)

AllStartAfter-select :
    (keep : Partition → Bool) (low : ℕ) (ps : List Partition)
    → AllStartAfter low ps
    → AllStartAfter low (select keep ps)
AllStartAfter-select keep low [] a = tt
AllStartAfter-select keep low (p ∷ ps) a = elim (Bool-cases (keep p)) [
  | inl e ↦ rw e (a.0, AllStartAfter-select keep low ps a.1)
  | inr e ↦ rw e (AllStartAfter-select keep low ps a.1)
]

pub select-IsDescending :
    (keep : Partition → Bool) (ps : List Partition)
    → IsDescending ps
    → IsDescending (select keep ps)
select-IsDescending keep [] d = tt
select-IsDescending keep (p ∷ ps) d = elim (Bool-cases (keep p)) [
  | inl e ↦ rw e (AllStartAfter-select keep p.start_slot ps d.0, select-IsDescending keep ps d.1)
  | inr e ↦ rw e (select-IsDescending keep ps d.1)
]

AllStartAfter-place :
    (rng : Partition) (low : ℕ) (ps : List Partition)
    → ltb low rng.start_slot ≡ true
    → AllStartAfter low ps
    → AllStartAfter low (place rng ps)
AllStartAfter-place rng low [] h a = (h, tt)
AllStartAfter-place rng low (p ∷ ps) h a = elim (Bool-cases (less p rng)) [
  | inl e ↦ rw e (h, a)
  | inr e ↦ elim (Bool-cases (less rng p)) [
    | inl g ↦ rw (e, g) (a.0, AllStartAfter-place rng low ps h a.1)
    | inr g ↦ rw (e, g) (h, a.1)
  ]
]

pub place-IsDescending :
    (rng : Partition) (ps : List Partition) → IsDescending ps → IsDescending (place rng ps)
place-IsDescending rng [] d = (tt, tt)
place-IsDescending rng (p ∷ ps) d = elim (Bool-cases (less p rng)) [
  | inl e ↦ rw e ((e, AllStartAfter-trans rng.start_slot p.start_slot ps e d.0), d)
  | inr e ↦ elim (Bool-cases (less rng p)) [
    | inl g ↦
        rw (e, g) (AllStartAfter-place rng p.start_slot ps g d.0, place-IsDescending rng ps d.1)
    | inr g ↦
        let same : rng.start_slot ≡ p.start_slot = ground (arith, e, g) in
        rw (e, g) (rw same d.0, d.1)
  ]
]

abbrev pub list_btree : Btree
list_btree = record {
  Tree = (ps : List Partition) × IsDescending ps;
  new = ([], tt);
  len = λ t. length t.0;
  replace_or_insert = λ p t. (place p t.0, place-IsDescending p t.0 t.1);
  delete = λ p t. (
    select (λ q. less p q || less q p) t.0,
    select-IsDescending (λ q. less p q || less q p) t.0 t.1,
  );
  descend = λ t. t.0;
  ascend_greater_or_equal = λ p t. reverse (select (λ q. not (less q p)) t.0);
  descend_less_or_equal = λ p t. select (λ q. not (less p q)) t.0;
}

pub list_btree-IsBtree : IsBtree list_btree
list_btree-IsBtree = record {
  descend-IsDescending = λ t. t.1;
  descend-new = refl;
  descend-len = λ t. refl;
  descend-replace = λ p t. refl;
  descend-delete = λ p t. refl;
  ascend_greater_or_equal_lem = λ p t. refl;
  descend_less_or_equal_lem = λ p t. refl;
}
