-- ===== src/ZoneMaster/PartitionTree/Removals.antt =====
-- What the tree finds after a removal, and what its scans list.
use baud.Base.{
  ℕ, ◌≡◌, ◌≤◌, ◌<◌, refl, ap, sym, ◌∙◌, Bool, true, false, ◌&&◌, ◌||◌, Bool-cases, inl, inr, Option,
  none, some, Option-cases, List, [], ◌∷◌, select, nat_beq, arith, if◌then◌else◌,
}
use baud.ZoneMaster.Partition.{Partition}
use baud.ZoneMaster.PartitionTree.{less, contains, Btree, IsBtree, find, remove_range, search_slot}
use baud.ZoneMaster.PartitionTree.Ranges.{IsDisjoint, IsDisjoint-select, find_slot, find_slot-below}
use baud.ZoneMaster.PartitionTree.Searches.{find-find_slot}
use baud.ZoneMaster.PartitionTree.Updates.{search_slot-find_slot}

pub some_same : (p q : Partition) → some p ≡ some q → p ≡ q
some_same p q h = cc

abbrev apart : Partition → Partition → Bool
apart r q = less r q || less q r

pub find_slot-low :
    (low slot : ℕ) (r : Partition) (ps : List Partition)
    → IsDisjoint low ps
    → find_slot slot ps ≡ some r
    → low ≤ r.start_slot
find_slot-low low slot r [] d h = absurd (ground (arith, h))
find_slot-low low slot r (p ∷ ps) d h = elim (Bool-cases (contains p slot)) [
  | inl c ↦
      let same = ap (λ (x : Partition). x.start_slot) (some_same p r (ground (arith, h, c))) in
      omega (arith, same, d.0)
  | inr c ↦
      let rest = find_slot-low p.end_slot slot r ps d.2 (ground (arith, h, c)) in
      omega (arith, rest, d.0, d.1)
]

-- Partitions that all start later than one are all apart from it.
select-apart :
    (low : ℕ) (r : Partition) (ps : List Partition)
    → IsDisjoint low ps
    → r.start_slot < low
    → select (apart r) ps ≡ ps
select-apart low r [] d h = refl
select-apart low r (p ∷ ps) d h =
    let here : apart r p ≡ true = ground (arith, d.0, h) in
    rw here (ap (λ qs. p ∷ qs) (select-apart p.end_slot r ps d.2 (omega (arith, h, d.0, d.1))))

find_slot-apart :
    (low slot at : ℕ) (r : Partition) (ps : List Partition)
    → IsDisjoint low ps
    → find_slot at ps ≡ some r
    → find_slot slot (select (apart r) ps) ≡ (if contains r slot then none else find_slot slot ps)
find_slot-apart low slot at r [] d h = absurd (ground (arith, h))
find_slot-apart low slot at r (p ∷ ps) d h = elim (Bool-cases (contains p at)) [
  | inl c ↦
      let same : p ≡ r = some_same p r (ground (arith, h, c)) in
      let start = ap (λ (x : Partition). x.start_slot) same in
      let end = ap (λ (x : Partition). x.end_slot) same in
      let gone : apart r p ≡ false = ground (arith, start) in
      let others = select-apart p.end_slot r ps d.2 (omega (arith, start, d.1)) in
      let below = find_slot-below p.end_slot slot ps d.2 in
      rw (gone, others) (ground (arith, start, end, below))
  | inr c ↦
      let later : find_slot at ps ≡ some r = ground (arith, h, c) in
      let rest = find_slot-apart p.end_slot slot at r ps d.2 later in
      let low = find_slot-low p.end_slot at r ps d.2 later in
      let here : apart r p ≡ true = ground (arith, low, d.1) in
      rw here (ground (arith, rest, low, d.1))
]

-- What `remove` takes away: what it finds, if that has the id.
abbrev pub is_removed : Partition → Option Partition → ℕ → Bool
is_removed rng none slot = false
is_removed rng (some r) slot = nat_beq r.id rng.id && contains r slot

module _ (bt : Btree) (laws : IsBtree bt) where
  -- For any tree that meets the documentation and whose partitions have slots and do not overlap. After
  -- a removal the partitions do not overlap either, and a search finds what it found before, but
  -- nothing for the slots of the partition that had the start slot, if that has the id.
  pub remove_range-search_slot :
      (rng blank : Partition) (slot : ℕ) (t : bt.Tree)
      → IsDisjoint 0 (bt.descend t)
      → IsDisjoint 0 (bt.descend (remove_range bt rng t))
        × (search_slot bt blank slot (remove_range bt rng t) ≡ (
            if is_removed rng (search_slot bt blank rng.start_slot t) slot
            then none
            else search_slot bt blank slot t))
  unfolding remove_range
  remove_range-search_slot rng blank slot t d =
      let found = find-find_slot bt laws rng 0 t d in
      let asked = search_slot-find_slot bt laws blank rng.start_slot t d in
      let before = search_slot-find_slot bt laws blank slot t d in
      elim (Option-cases (find bt rng t)) [
        | inl e ↦ let missing = asked ∙ sym found ∙ e in rw (remove_range, e, missing) (d, refl)
        | inr (r, e) ↦
            let there = asked ∙ sym found ∙ e in
            elim (Bool-cases (nat_beq r.id rng.id)) [
              | inr b ↦ rw (remove_range, e, b, there, b) (d, refl)
              | inl b ↦
                  let left = laws.descend-delete r t in
                  let disjoint : IsDisjoint 0 (bt.descend (bt.delete r t)) =
                    rw left (IsDisjoint-select (apart r) 0 (bt.descend t) d) in
                  let after = search_slot-find_slot bt laws blank slot (bt.delete r t) disjoint in
                  let gone =
                    find_slot-apart 0 slot rng.start_slot r (bt.descend t) d (sym found ∙ e) in
                  rw (remove_range, e, b, there, b)
                    (
                      disjoint,
                      after
                          ∙ ap (find_slot slot) left
                          ∙ gone
                          ∙ ap (λ o. if contains r slot then none else o) (sym before),
                    )
            ]
      ]
