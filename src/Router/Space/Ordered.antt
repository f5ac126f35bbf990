-- ===== src/Router/Space/Ordered.antt =====
-- Partitions in the order of their slots, and what a search finds in them.
use baud.Base.{
  ℕ, zero, suc, ◌≡◌, ◌≤◌, ◌<◌, refl, Bool-cases, inl, inr, true, false, ◌&&◌, Option, none, some,
  List, [], ◌∷◌, leb, length, arith, if◌then◌else◌,
}
use baud.Router.Search.{search, IsFirst-unique, search-IsFirst}
use baud.Router.Space.{Partition, ends_from}

module _ {R : Type 0} where
  -- Ordered, from the slot `low` on; a partition may start at the last slot of the one before it, as
  -- the partitions of gm/cluster.go do.
  abbrev pub IsOrdered : ℕ → List (Partition R) → Type 0
  IsOrdered low [] = Unit
  IsOrdered low (p ∷ ps) =
      (low ≤ p.start_slot) × (p.start_slot ≤ p.end_slot) × IsOrdered p.end_slot ps

  -- How many partitions end before a slot.
  abbrev pub skip : ℕ → List (Partition R) → ℕ
  skip slot [] = 0
  skip slot (p ∷ ps) = if leb slot p.end_slot then 0 else suc (skip slot ps)

  -- The partition that has a slot, and its position, counted from `i`.
  abbrev pub linear_search : ℕ → ℕ → List (Partition R) → Option (Partition R × ℕ)
  linear_search slot i [] = none
  linear_search slot i (p ∷ ps) =
      if leb p.start_slot slot && leb slot p.end_slot
      then some (p, i)
      else linear_search slot (suc i) ps

  -- All partitions of an ordered list end at `low` or later.
  ends_low :
      (low slot : ℕ) (ps : List (Partition R)) (i : ℕ)
      → IsOrdered low ps
      → slot ≤ low
      → i < length ps
      → ends_from slot ps i ≡ true
  ends_low low slot [] i o k q = absurd (omega arith)
  ends_low low slot (p ∷ ps) zero o k q = ground (arith, o.0, o.1, k)
  ends_low low slot (p ∷ ps) (suc i) o k q =
      ends_low p.end_slot slot ps i o.2 (omega (arith, o.0, o.1, k)) (omega arith)

  ends_monotone :
      (low slot : ℕ) (ps : List (Partition R))
      → IsOrdered low ps
      → (a b : ℕ) → a ≤ b
      → b < length ps
      → ends_from slot ps a ≡ true
      → ends_from slot ps b ≡ true
  ends_monotone low slot [] o a b h k e = absurd (omega arith)
  ends_monotone low slot (p ∷ ps) o zero zero h k e = e
  ends_monotone low slot (p ∷ ps) o zero (suc b) h k e =
      ends_low p.end_slot slot ps b o.2 (ground (arith, e)) (omega arith)
  ends_monotone low slot (p ∷ ps) o (suc a) zero h k e = absurd (omega arith)
  ends_monotone low slot (p ∷ ps) o (suc a) (suc b) h k e =
      ends_monotone p.end_slot slot ps o.2 a b (omega arith) (omega arith) e

  skip_bounded : (slot : ℕ) (ps : List (Partition R)) → skip slot ps ≤ length ps
  skip_bounded slot [] = omega arith
  skip_bounded slot (p ∷ ps) = ground (arith, skip_bounded slot ps)

  skip_before :
      (slot : ℕ) (ps : List (Partition R)) (a : ℕ) → a < skip slot ps → ends_from slot ps a ≡ false
  skip_before slot [] a h = refl
  skip_before slot (p ∷ ps) zero h = ground (arith, h)
  skip_before slot (p ∷ ps) (suc a) h = skip_before slot ps a (ground (arith, h))

  skip_passes :
      (slot : ℕ) (ps : List (Partition R))
      → skip slot ps < length ps
      → ends_from slot ps (skip slot ps) ≡ true
  skip_passes slot [] h = absurd (omega arith)
  skip_passes slot (p ∷ ps) h = elim (Bool-cases (leb slot p.end_slot)) [
    | inl e ↦ rw e e
    | inr e ↦ rw e (skip_passes slot ps (ground (arith, h, e)))
  ]

  pub search-skip :
      (low slot : ℕ) (ps : List (Partition R))
      → IsOrdered low ps
      → search (length ps) (ends_from slot ps) ≡ skip slot ps
  search-skip low slot ps o =
      let n = length ps in
      let f = ends_from slot ps in
      IsFirst-unique n f (search n f) (skip slot ps)
        (search-IsFirst n f (ends_monotone low slot ps o))
        (record {
          bounded = skip_bounded slot ps;
          before = skip_before slot ps;
          passes = skip_passes slot ps;
        })
