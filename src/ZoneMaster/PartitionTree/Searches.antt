-- ===== src/ZoneMaster/PartitionTree/Searches.antt =====
-- What the tree finds is the partition of the slot.
use baud.Base.{
  ℕ, ◌≡◌, ◌<◌, refl, ap, sym, ◌∙◌, Bool, not, Bool-cases, inl, inr, Option, none, some,
  Option-cases, List, [], ◌∷◌, ◌++◌, reverse, select, ltb, arith, if◌then◌else◌,
}
use mathlib.Core.List.{reverse-cons}
use baud.ZoneMaster.Partition.{Partition}
use baud.ZoneMaster.PartitionTree.{contains, Btree, IsBtree, find}
use baud.ZoneMaster.PartitionTree.Ranges.{IsDisjoint, find_slot}

abbrev first : List Partition → Option Partition
first [] = none
first (p ∷ ps) = some p

abbrev or_some : Option Partition → Partition → Option Partition
or_some none p = some p
or_some (some q) p = some q

first-snoc : (ps : List Partition) (p : Partition) → first (ps ++ (p ∷ [])) ≡ or_some (first ps) p
first-snoc [] p = refl
first-snoc (q ∷ ps) p = refl

abbrev answer : ℕ → Option Partition → Option Partition
answer slot none = none
answer slot (some p) = if contains p slot then some p else none

abbrev starts_by : ℕ → Partition → Bool
starts_by slot q = not (ltb slot q.start_slot)

select-starts_by_none :
    (low slot : ℕ) (ps : List Partition)
    → IsDisjoint low ps
    → slot < low
    → select (starts_by slot) ps ≡ []
select-starts_by_none low slot [] d h = refl
select-starts_by_none low slot (p ∷ ps) d h =
    ground (arith, d.0, d.1, h, select-starts_by_none p.end_slot slot ps d.2)

-- The last of a partition and those after it.
last-cons :
    (slot : ℕ) (p : Partition) (xs : List Partition)
    → answer slot (first (reverse (p ∷ xs))) ≡ answer slot (or_some (first (reverse xs)) p)
last-cons slot p xs = ap (answer slot) (ap first (reverse-cons p xs) ∙ first-snoc (reverse xs) p)

last-find_slot :
    (low slot : ℕ) (ps : List Partition)
    → IsDisjoint low ps
    → answer slot (first (reverse (select (starts_by slot) ps))) ≡ find_slot slot ps
last-find_slot low slot [] d = refl
last-find_slot low slot (p ∷ ps) d =
    let rest = last-find_slot p.end_slot slot ps d.2 in
    let xs = select (starts_by slot) ps in
    elim (Bool-cases (starts_by slot p)) [
      | inr e ↦ rw e (rest ∙ ground (arith, e))
      | inl e ↦ elim (Bool-cases (contains p slot)) [
        | inl c ↦
            let nothing = select-starts_by_none p.end_slot slot ps d.2 (ground (arith, c)) in
            let last = ap (λ ys. answer slot (or_some (first (reverse ys)) p)) nothing in
            rw (e, c) (last-cons slot p xs ∙ last ∙ rw c refl)
        | inr c ↦ elim (Option-cases (first (reverse xs))) [
          | inl n ↦
              let last = ap (λ o. answer slot (or_some o p)) n in
              let empty = ap (answer slot) (sym n) in
              rw (e, c) (last-cons slot p xs ∙ last ∙ rw c (empty ∙ rest))
          | inr (q, n) ↦
              let last = ap (λ o. answer slot (or_some o p)) n in
              let same = ap (answer slot) (sym n) in
              rw (e, c) (last-cons slot p xs ∙ last ∙ same ∙ rest)
        ]
      ]
    ]

module _ (bt : Btree) (laws : IsBtree bt) where
  find-answer :
      (rng : Partition) (t : bt.Tree)
      → find bt rng t ≡ answer rng.start_slot (first (bt.ascend_greater_or_equal rng t))
  unfolding find
  find-answer rng t = either (bt.ascend_greater_or_equal rng t) refl
    where
      either :
          (xs : List Partition)
          → bt.ascend_greater_or_equal rng t ≡ xs
          → find bt rng t ≡ answer rng.start_slot (first (bt.ascend_greater_or_equal rng t))
      either [] e = rw (find, e) refl
      either (x ∷ xs) e = rw (find, e) refl

  pub find-find_slot :
      (rng : Partition) (low : ℕ) (t : bt.Tree)
      → IsDisjoint low (bt.descend t)
      → find bt rng t ≡ find_slot rng.start_slot (bt.descend t)
  find-find_slot rng low t d =
      find-answer rng t
      ∙ ap (λ xs. answer rng.start_slot (first xs)) (laws.ascend_greater_or_equal_lem rng t)
      ∙ last-find_slot low rng.start_slot (bt.descend t) d
