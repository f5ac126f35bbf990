-- ===== src/ZoneMaster/PartitionTree/Ranges.antt =====
-- Lists of partitions that do not overlap, in the order of their slots.
use baud.Base.{
  ℕ, ◌≡◌, ◌≤◌, ◌<◌, refl, Bool, false, not, ◌&&◌, Bool-cases, inl, inr, Option, none, some, List,
  [], ◌∷◌, select, ltb, arith, if◌then◌else◌,
}
use baud.ZoneMaster.Partition.{Partition}
use baud.ZoneMaster.PartitionTree.{contains, place}

-- Partitions one after the other, from a slot on.
abbrev pub IsDisjoint : ℕ → List Partition → Type 0
IsDisjoint low [] = Unit
IsDisjoint low (p ∷ ps) =
    (low ≤ p.start_slot) × (p.start_slot < p.end_slot) × IsDisjoint p.end_slot ps

-- The partition that contains a slot.
abbrev pub find_slot : ℕ → List Partition → Option Partition
find_slot slot [] = none
find_slot slot (p ∷ ps) = if contains p slot then some p else find_slot slot ps

abbrev pub overlap : Partition → Partition → Bool
overlap p q = ltb p.start_slot q.end_slot && ltb q.start_slot p.end_slot

pub IsDisjoint-low :
    (low lower : ℕ) (ps : List Partition) → lower ≤ low → IsDisjoint low ps → IsDisjoint lower ps
IsDisjoint-low low lower [] h d = tt
IsDisjoint-low low lower (p ∷ ps) h d = (omega (arith, h, d.0), d.1, d.2)

pub IsDisjoint-select :
    (keep : Partition → Bool) (low : ℕ) (ps : List Partition)
    → IsDisjoint low ps
    → IsDisjoint low (select keep ps)
IsDisjoint-select keep low [] d = tt
IsDisjoint-select keep low (p ∷ ps) d = elim (Bool-cases (keep p)) [
  | inl e ↦ rw e (d.0, d.1, IsDisjoint-select keep p.end_slot ps d.2)
  | inr e ↦ rw e (
      IsDisjoint-select keep low ps
        (IsDisjoint-low p.end_slot low ps (omega (arith, d.0, d.1)) d.2))
]

pub find_slot-below :
    (low slot : ℕ) (ps : List Partition) → IsDisjoint low ps → slot < low → find_slot slot ps ≡ none
find_slot-below low slot [] d h = refl
find_slot-below low slot (p ∷ ps) d h =
    ground (arith, d.0, d.1, h, find_slot-below p.end_slot slot ps d.2)

-- What is left of an answer when the partitions that overlap one are gone.
abbrev pub unless_overlap : Partition → Option Partition → Option Partition
unless_overlap rng none = none
unless_overlap rng (some p) = if overlap rng p then none else some p

pub find_slot-select :
    (rng : Partition) (low slot : ℕ) (ps : List Partition)
    → IsDisjoint low ps
    → find_slot slot (select (λ p. not (overlap rng p)) ps) ≡ unless_overlap rng (find_slot slot ps)
find_slot-select rng low slot [] d = refl
find_slot-select rng low slot (p ∷ ps) d =
    let rest = find_slot-select rng p.end_slot slot ps d.2 in
    let none_left = find_slot-below p.end_slot slot ps d.2 in ground (arith, rest, none_left, d.1)

-- No partition of a list overlaps one.
abbrev pub IsFree : Partition → List Partition → Type 0
IsFree rng [] = Unit
IsFree rng (p ∷ ps) = (overlap rng p ≡ false) × IsFree rng ps

pub select-IsFree :
    (rng : Partition) (ps : List Partition) → IsFree rng (select (λ p. not (overlap rng p)) ps)
select-IsFree rng [] = tt
select-IsFree rng (p ∷ ps) = elim (Bool-cases (overlap rng p)) [
  | inl e ↦ rw e (select-IsFree rng ps)
  | inr e ↦ rw e (e, select-IsFree rng ps)
]

pub place-IsDisjoint :
    (rng : Partition) (low : ℕ) (ps : List Partition)
    → rng.start_slot < rng.end_slot
    → low ≤ rng.start_slot
    → IsFree rng ps
    → IsDisjoint low ps
    → IsDisjoint low (place rng ps)
place-IsDisjoint rng low [] w l f d = (l, w, tt)
place-IsDisjoint rng low (p ∷ ps) w l f d = elim (Bool-cases (ltb rng.start_slot p.start_slot)) [
  | inl e ↦ rw e (l, w, (ground (arith, f.0, e, w, d.1), d.1, d.2))
  | inr e ↦ elim (Bool-cases (ltb p.start_slot rng.start_slot)) [
    | inl g ↦
        rw (e, g)
          (d.0, d.1, place-IsDisjoint rng p.end_slot ps w (ground (arith, f.0, g, w, d.1)) f.1 d.2)
    | inr g ↦ absurd (ground (arith, f.0, e, g, w, d.1))
  ]
]

pub find_slot-place :
    (rng : Partition) (low slot : ℕ) (ps : List Partition)
    → rng.start_slot < rng.end_slot
    → IsFree rng ps
    → IsDisjoint low ps
    → find_slot slot (place rng ps) ≡ (if contains rng slot then some rng else find_slot slot ps)
find_slot-place rng low slot [] w f d = refl
find_slot-place rng low slot (p ∷ ps) w f d =
    let rest = find_slot-place rng p.end_slot slot ps w f.1 d.2 in ground (arith, rest, f.0, w, d.1)
