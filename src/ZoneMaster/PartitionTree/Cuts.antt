-- ===== src/ZoneMaster/PartitionTree/Cuts.antt =====
-- The partitions that `update` deletes are those that overlap the new one.
use baud.Base.{
  ℕ, ◌≡◌, ◌≤◌, ◌<◌, refl, ap, sym, ◌∙◌, Bool, true, false, not, ◌&&◌, ◌||◌, Bool-cases, inl, inr,
  Option, none, some, List, [], ◌∷◌, select, ltb, leb, nat_beq, arith,
}
use baud.ZoneMaster.Partition.{Partition}
use baud.ZoneMaster.PartitionTree.{less, contains, Btree, IsBtree, overlaps, delete_all}
use baud.ZoneMaster.PartitionTree.Ranges.{IsDisjoint, find_slot, overlap, find_slot-below}

-- An item that stands at the place of none of a list.
abbrev pub misses : List Partition → Partition → Bool
misses [] q = true
misses (o ∷ os) q = (less o q || less q o) && misses os q

select-select :
    (f g : Partition → Bool) (ps : List Partition)
    → select f (select g ps) ≡ select (λ p. g p && f p) ps
select-select f g [] = refl
select-select f g (p ∷ ps) = ground (arith, select-select f g ps)

module _ (bt : Btree) (laws : IsBtree bt) where
  pub descend-delete_all :
      (os : List Partition) (t : bt.Tree)
      → bt.descend (delete_all bt os t) ≡ select (misses os) (bt.descend t)
  descend-delete_all [] t = sym (select_true (bt.descend t))
    where
      select_true : (ps : List Partition) → select (λ p. true) ps ≡ ps
      select_true [] = refl
      select_true (p ∷ ps) = ap (λ qs. p ∷ qs) (select_true ps)
  descend-delete_all (o ∷ os) t =
      descend-delete_all os (bt.delete o t)
      ∙ ap (select (misses os)) (laws.descend-delete o t)
      ∙ select-select (misses os) (λ q. less o q || less q o) (bt.descend t)

abbrev has_start : ℕ → List Partition → Bool
has_start slot [] = false
has_start slot (p ∷ ps) = nat_beq p.start_slot slot || has_start slot ps

has_start-low :
    (low slot : ℕ) (ps : List Partition) → IsDisjoint low ps → has_start slot ps ≡ true → low ≤ slot
has_start-low low slot [] d h = absurd (ground (arith, h))
has_start-low low slot (p ∷ ps) d h =
    ground (arith, h, d.0, d.1, has_start-low p.end_slot slot ps d.2)

-- The items from a slot on.
abbrev pub starts_from : ℕ → Partition → Bool
starts_from from q = not (ltb q.start_slot from)

misses-overlaps :
    (rng x : Partition) (from low : ℕ) (ps : List Partition)
    → IsDisjoint low ps
    → misses (overlaps rng (select (starts_from from) ps)) x
      ≡ not (leb from x.start_slot && ltb x.start_slot rng.end_slot && has_start x.start_slot ps)
misses-overlaps rng x from low [] d = ground arith
misses-overlaps rng x from low (y ∷ ps) d =
    let rest = misses-overlaps rng x from y.end_slot ps d.2 in
    let high = has_start-low y.end_slot x.start_slot ps d.2 in ground (arith, rest, high, d.1)

-- The partitions before a slot end before another partition, the others end after its start.
abbrev pub IsCut : Partition → ℕ → List Partition → Type 0
IsCut rng from [] = Unit
IsCut rng from (p ∷ ps) =
    (p.start_slot < from → p.end_slot ≤ rng.start_slot)
    × (from ≤ p.start_slot → rng.start_slot < p.end_slot)
    × IsCut rng from ps

high-IsCut :
    (rng : Partition) (from low : ℕ) (ps : List Partition)
    → IsDisjoint low ps
    → from ≤ low
    → rng.start_slot < low
    → IsCut rng from ps
high-IsCut rng from low [] d f h = tt
high-IsCut rng from low (p ∷ ps) d f h = (
  λ k. absurd (omega (arith, k, f, d.0)),
  λ k. omega (arith, h, d.0, d.1),
  high-IsCut rng from p.end_slot ps d.2 (omega (arith, f, d.0, d.1)) (omega (arith, h, d.0, d.1)),
)

-- Where `update` begins to look for overlaps.
abbrev pub begin_at : Partition → Option Partition → ℕ
begin_at rng none = rng.start_slot
begin_at rng (some r) = r.start_slot

begin_at-low :
    (rng : Partition) (low : ℕ) (ps : List Partition)
    → IsDisjoint low ps
    → low ≤ rng.start_slot
    → low ≤ begin_at rng (find_slot rng.start_slot ps)
begin_at-low rng low [] d h = h
begin_at-low rng low (p ∷ ps) d h = elim (Bool-cases (contains p rng.start_slot)) [
  | inl c ↦ rw c d.0
  | inr c ↦ elim (Bool-cases (leb p.end_slot rng.start_slot)) [
    | inl e ↦
        let rest = begin_at-low rng p.end_slot ps d.2 (ground (arith, e)) in
        rw c (omega (arith, rest, d.0, d.1))
    | inr e ↦
        let below = find_slot-below p.end_slot rng.start_slot ps d.2 (ground (arith, e)) in
        rw (c, below) h
  ]
]

begins-IsCut :
    (rng : Partition) (from low : ℕ) (ps : List Partition)
    → IsDisjoint low ps
    → from ≡ begin_at rng (find_slot rng.start_slot ps)
    → IsCut rng from ps
begins-IsCut rng from low [] d e = tt
begins-IsCut rng from low (p ∷ ps) d e = elim (Bool-cases (contains p rng.start_slot)) [
  | inl c ↦
      let start : from ≡ p.start_slot = e ∙ rw c refl in
      (
        λ k. absurd (omega (arith, k, start)),
        λ k. ground (arith, c),
        high-IsCut rng from p.end_slot ps d.2 (omega (arith, start, d.1)) (ground (arith, c)),
      )
  | inr c ↦
      let same : from ≡ begin_at rng (find_slot rng.start_slot ps) = e ∙ rw c refl in
      elim (Bool-cases (leb p.end_slot rng.start_slot)) [
        | inl g ↦
            let later = begin_at-low rng p.end_slot ps d.2 (ground (arith, g)) in
            (
              λ k. ground (arith, g),
              λ k. absurd (omega (arith, k, later, d.1, same)),
              begins-IsCut rng from p.end_slot ps d.2 same,
            )
        | inr g ↦
            let below = find_slot-below p.end_slot rng.start_slot ps d.2 (ground (arith, g)) in
            let start : from ≡ rng.start_slot = same ∙ ap (begin_at rng) below in
            (
              λ k. absurd (ground (arith, c, g, k, start)),
              λ k. ground (arith, g),
              high-IsCut rng from p.end_slot ps d.2 (ground (arith, g, start)) (ground (arith, g)),
            )
      ]
]

-- Two tests that agree on the items of a list.
abbrev AllAgree : (f g : Partition → Bool) → List Partition → Type 0
AllAgree f g [] = Unit
AllAgree f g (p ∷ ps) = (f p ≡ g p) × AllAgree f g ps

select-AllAgree :
    (f g : Partition → Bool) (ps : List Partition) → AllAgree f g ps → select f ps ≡ select g ps
select-AllAgree f g [] a = refl
select-AllAgree f g (p ∷ ps) a =
    let rest = select-AllAgree f g ps a.1 in
    elim (Bool-cases (g p)) [
      | inl e ↦ rw (a.0, e) (ap (λ qs. p ∷ qs) rest)
      | inr e ↦ rw (a.0, e) rest
    ]

-- On the items of a list, those that stay are those that do not overlap. `all` is the whole list.
cut-AllAgree :
    (rng : Partition) (from low : ℕ) (all ps : List Partition)
    → rng.start_slot < rng.end_slot
    → IsDisjoint low all
    → ((slot : ℕ) → has_start slot ps ≡ true → has_start slot all ≡ true)
    → IsCut rng from ps
    → AllAgree (misses (overlaps rng (select (starts_from from) all))) (λ p. not (overlap rng p)) ps
cut-AllAgree rng from low all [] w d inside c = tt
cut-AllAgree rng from low all (p ∷ ps) w d inside c =
    let here = inside p.start_slot (ground arith) in
    let left = misses-overlaps rng p from low all d in
    (
      ground (arith, left, here, c.0, c.1, w),
      cut-AllAgree rng from low all ps w d (λ slot h. inside slot (ground (arith, h))) c.2,
    )

-- From where the search begins on, the overlapping items go and the others stay.
pub select-overlaps :
    (rng : Partition) (from low : ℕ) (ps : List Partition)
    → rng.start_slot < rng.end_slot
    → IsDisjoint low ps
    → from ≡ begin_at rng (find_slot rng.start_slot ps)
    → select (misses (overlaps rng (select (starts_from from) ps))) ps
      ≡ select (λ p. not (overlap rng p)) ps
select-overlaps rng from low ps w d e =
    select-AllAgree _ (λ p. not (overlap rng p)) ps
      (cut-AllAgree rng from low ps ps w d (λ slot h. h) (begins-IsCut rng from low ps d e))
