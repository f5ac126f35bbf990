-- ===== src/ZoneMaster/PartitionTree/Scans.antt =====
-- What `multipleSearch` lists.
use baud.Base.{
  ℕ, ◌+◌, ◌≡◌, ◌≤◌, ◌<◌, refl, ap, sym, ◌∙◌, Bool, true, false, Bool-cases, inl, inr, Option, none,
  some, Option-cases, List, [], ◌∷◌, select, length, nat_beq, arith, pos, ret,
}
use baud.ZoneMaster.Partition.{Partition}
use baud.ZoneMaster.PartitionTree.{
  contains, Btree, IsBtree, find, search_slot, scan_items, adjoining, first_range, ascend_scan,
  multiple_search,
}
use baud.ZoneMaster.PartitionTree.Ranges.{IsDisjoint, find_slot}
use baud.ZoneMaster.PartitionTree.Searches.{find-find_slot}
use baud.ZoneMaster.PartitionTree.Cuts.{starts_from}
use baud.ZoneMaster.PartitionTree.Updates.{search_slot-find_slot}
use baud.ZoneMaster.PartitionTree.Removals.{some_same, find_slot-low}

abbrev pub first : List Partition → Option Partition
first [] = none
first (p ∷ ps) = some p

-- Each partition starts at the end of the one before, the first one at a slot.
abbrev pub AreAdjoining : ℕ → List Partition → Type 0
AreAdjoining slot [] = Unit
AreAdjoining slot (p ∷ ps) = (p.start_slot ≡ slot) × AreAdjoining p.end_slot ps

abbrev pub IsRun : List Partition → Type 0
IsRun [] = Unit
IsRun (p ∷ ps) = AreAdjoining p.end_slot ps

abbrev pub AllIn : (Partition → Type 0) → List Partition → Type 0
AllIn P [] = Unit
AllIn P (p ∷ ps) = P p × AllIn P ps

adjoining-AreAdjoining : (slot : ℕ) (ps : List Partition) → AreAdjoining slot (adjoining slot ps)
adjoining-AreAdjoining slot [] = tt
adjoining-AreAdjoining slot (p ∷ ps) = elim (Bool-cases (nat_beq p.start_slot slot)) [
  | inl e ↦ rw e (ground (arith, e), adjoining-AreAdjoining p.end_slot ps)
  | inr e ↦ rw e tt
]

adjoining-length : (slot : ℕ) (ps : List Partition) → length (adjoining slot ps) ≤ length ps
adjoining-length slot [] = omega arith
adjoining-length slot (p ∷ ps) = ground (arith, adjoining-length p.end_slot ps)

adjoining-AllIn :
    (P : Partition → Type 0) (slot : ℕ) (ps : List Partition)
    → AllIn P ps
    → AllIn P (adjoining slot ps)
adjoining-AllIn P slot [] a = tt
adjoining-AllIn P slot (p ∷ ps) a = elim (Bool-cases (nat_beq p.start_slot slot)) [
  | inl e ↦ rw e (a.0, adjoining-AllIn P p.end_slot ps a.1)
  | inr e ↦ rw e tt
]

scan_items-length :
    (num count : ℕ) (ps : List Partition)
    → count < num
    → length (scan_items num count ps) + count ≤ num
scan_items-length num count [] h = omega arith
scan_items-length num count (p ∷ ps) h = ground (arith, scan_items-length num (count + 1) ps, h)

scan_items-AllIn :
    (P : Partition → Type 0) (num count : ℕ) (ps : List Partition)
    → AllIn P ps
    → AllIn P (scan_items num count ps)
scan_items-AllIn P num count [] a = tt
scan_items-AllIn P num count (p ∷ ps) a = elim (Bool-cases (nat_beq (count + 1) num)) [
  | inl e ↦ rw e (a.0, tt)
  | inr e ↦ rw e (a.0, scan_items-AllIn P num (count + 1) ps a.1)
]

select-AllIn :
    (P : Partition → Type 0) (keep : Partition → Bool) (ps : List Partition)
    → AllIn P ps
    → AllIn P (select keep ps)
select-AllIn P keep [] a = tt
select-AllIn P keep (p ∷ ps) a = elim (Bool-cases (keep p)) [
  | inl e ↦ rw e (a.0, select-AllIn P keep ps a.1)
  | inr e ↦ rw e (select-AllIn P keep ps a.1)
]

-- Each partition is found by its start slot.
abbrev IsFound : List Partition → Partition → Type 0
IsFound ps p = find_slot p.start_slot ps ≡ some p

AllIn-mono :
    (P Q : Partition → Type 0) (ps : List Partition)
    → ((p : Partition) → P p → Q p)
    → AllIn P ps
    → AllIn Q ps
AllIn-mono P Q [] f a = tt
AllIn-mono P Q (p ∷ ps) f a = (f p a.0, AllIn-mono P Q ps f a.1)

AllIn-IsFound : (low : ℕ) (ps : List Partition) → IsDisjoint low ps → AllIn (IsFound ps) ps
AllIn-IsFound low [] d = tt
AllIn-IsFound low (p ∷ ps) d =
    let here : IsFound (p ∷ ps) p = ground (arith, d.1) in
    (here, AllIn-mono (IsFound ps) (IsFound (p ∷ ps)) ps later (AllIn-IsFound p.end_slot ps d.2))
  where
    later : (q : Partition) → IsFound ps q → IsFound (p ∷ ps) q
    later q h = ground (arith, h, find_slot-low p.end_slot q.start_slot q ps d.2 h)

-- The scan begins with the partition that was found.
select-first :
    (low slot : ℕ) (r : Partition) (ps : List Partition)
    → IsDisjoint low ps
    → find_slot slot ps ≡ some r
    → first (select (starts_from r.start_slot) ps) ≡ some r
select-first low slot r [] d h = absurd (ground (arith, h))
select-first low slot r (p ∷ ps) d h = elim (Bool-cases (contains p slot)) [
  | inl c ↦
      let same : p ≡ r = some_same p r (ground (arith, h, c)) in
      let here : starts_from r.start_slot p ≡ true =
        ground (arith, ap (λ (x : Partition). x.start_slot) same) in
      rw here (ap some same)
  | inr c ↦
      let later : find_slot slot ps ≡ some r = ground (arith, h, c) in
      let low = find_slot-low p.end_slot slot r ps d.2 later in
      let here : starts_from r.start_slot p ≡ false = ground (arith, low, d.1) in
      rw here (select-first p.end_slot slot r ps d.2 later)
]

scan_items-first : (num : ℕ) (ps : List Partition) → first (scan_items num 0 ps) ≡ first ps
scan_items-first num [] = refl
scan_items-first num (p ∷ ps) = refl

first_range-first : (ps : List Partition) → first (first_range ps) ≡ first ps
first_range-first [] = refl
first_range-first (p ∷ ps) = refl

first_range-IsRun : (ps : List Partition) → IsRun (first_range ps)
first_range-IsRun [] = tt
first_range-IsRun (p ∷ ps) = adjoining-AreAdjoining p.end_slot ps

first_range-length : (ps : List Partition) → length (first_range ps) ≤ length ps
first_range-length [] = omega arith
first_range-length (p ∷ ps) = omega (arith, adjoining-length p.end_slot ps)

first_range-AllIn :
    (P : Partition → Type 0) (ps : List Partition) → AllIn P ps → AllIn P (first_range ps)
first_range-AllIn P [] a = tt
first_range-AllIn P (p ∷ ps) a = (a.0, adjoining-AllIn P p.end_slot ps a.1)

module _ (bt : Btree) (laws : IsBtree bt) where
  first_range-ascend_scan :
      (blank : Partition) (slot num : ℕ) (t : bt.Tree)
      → IsDisjoint 0 (bt.descend t)
      → let rs = first_range (ascend_scan bt (record blank { start_slot = slot }) num t) in
        (first rs ≡ search_slot bt blank slot t)
        × IsRun rs
        × AllIn (λ r. search_slot bt blank r.start_slot t ≡ some r) rs
        × (0 < num → length rs ≤ num)
  unfolding ascend_scan
  first_range-ascend_scan blank slot num t d =
      let rng = record blank { start_slot = slot } in
      let ps = bt.descend t in
      let asked = search_slot-find_slot bt laws blank slot t d in
      let found = find-find_slot bt laws rng 0 t d in
      elim (Option-cases (find bt rng t)) [
        | inl e ↦
            let nothing = asked ∙ sym found ∙ e in
            rw (ascend_scan, e, nothing) (refl, tt, tt, λ h. omega arith)
        | inr (r, e) ↦
            let items = select (starts_from r.start_slot) ps in
            let same : bt.descend_less_or_equal r t ≡ items = laws.descend_less_or_equal_lem r t in
            let begins = select-first 0 slot r ps d (sym found ∙ e) in
            let known : AllIn (IsFound ps) (scan_items num 0 items) =
              scan_items-AllIn (IsFound ps) num 0 items
                (select-AllIn (IsFound ps) (starts_from r.start_slot) ps (AllIn-IsFound 0 ps d)) in
            rw (ascend_scan, e, same)
              (
                first_range-first (scan_items num 0 items)
                    ∙ scan_items-first num items
                    ∙ begins
                    ∙ sym (asked ∙ sym found ∙ e),
                first_range-IsRun (scan_items num 0 items),
                first_range-AllIn _ (scan_items num 0 items) (
                    AllIn-mono (IsFound ps) (λ q. search_slot bt blank q.start_slot t ≡ some q)
                      (scan_items num 0 items)
                      (λ q h. search_slot-find_slot bt laws blank q.start_slot t d ∙ h) known),
                λ h.
                    let a = first_range-length (scan_items num 0 items) in
                    let b = scan_items-length num 0 items h in omega (arith, a, b),
              )
      ]

  -- For any tree that meets the documentation and whose partitions have slots and do not overlap. The
  -- list begins with the partition of the slot, and is empty if there is none; each other partition
  -- starts at the end of the one before; a search for its start slot finds each; and there are at
  -- most `num`, if `num` is not 0; `num` is not negative.
  pub multiple_search-IsRun :
      (blank : Partition) (slot num : ℕ) (t : bt.Tree)
      → IsDisjoint 0 (bt.descend t)
      → (rs : List Partition) × (multiple_search bt blank slot (pos num) t ≡ ret rs)
        × (first rs ≡ search_slot bt blank slot t)
        × IsRun rs
        × AllIn (λ r. search_slot bt blank r.start_slot t ≡ some r) rs
        × (0 < num → length rs ≤ num)
  unfolding multiple_search
  multiple_search-IsRun blank slot num t d =
      let (begins, run, all, short) = first_range-ascend_scan blank slot num t d in
      (_, refl, begins, run, all, short)
