-- ===== src/Router/Space/Found.antt =====
-- The partition that is found, and the one that is deleted.
use baud.Base.{
  ℕ, suc, ◌+◌, ◌-◌, ◌≡◌, ◌≤◌, ◌<◌, refl, ap, sym, ◌∙◌, Bool-cases, inl, inr, false, ◌&&◌, Option,
  none, some, List, [], ◌∷◌, ltb, leb, length, get_elem?, arith, if◌then◌else◌, Option-cases,
}
use baud.Router.Search.{search}
use baud.Router.Space.{Partition, ends_from, get_position, delete_partition, remove_at}
use baud.Router.Space.Ordered.{IsOrdered, skip, linear_search, search-skip}

module _ {R : Type 0} where
  -- What the code makes of the partition at a position.
  abbrev pub in_range : ℕ → ℕ → Option (Partition R) → Option (Partition R × ℕ)
  in_range slot pos none = none
  in_range slot pos (some p) = if ltb slot p.start_slot then none else some (p, pos)

  linear_search-none :
      (low slot i : ℕ) (ps : List (Partition R))
      → IsOrdered low ps
      → slot < low
      → linear_search slot i ps ≡ none
  linear_search-none low slot i [] o h = refl
  linear_search-none low slot i (p ∷ ps) o h =
      ground (
        arith,
        o.0,
        o.1,
        linear_search-none p.end_slot slot (suc i) ps o.2 (omega (arith, o.0, o.1)),
      )

  linear_search-skip :
      (low slot i : ℕ) (ps : List (Partition R))
      → IsOrdered low ps
      → in_range slot (i + skip slot ps) (get_elem? ps (skip slot ps)) ≡ linear_search slot i ps
  linear_search-skip low slot i [] o = refl
  linear_search-skip low slot i (p ∷ ps) o = elim (Bool-cases (leb slot p.end_slot)) [
    | inl e ↦ elim (Bool-cases (leb p.start_slot slot)) [
      | inl b ↦ rw e (ground (arith, b))
      | inr b ↦
          let apart : slot < p.end_slot = ground (arith, b, o.1) in
          let rest = linear_search-none p.end_slot slot (suc i) ps o.2 apart in
          rw e (ground (arith, rest, b))
    ]
    | inr e ↦
        let next : i + suc (skip slot ps) ≡ suc i + skip slot ps = omega arith in
        let misses : leb p.start_slot slot && false ≡ false = ground arith in
        rw (e, next, misses) (linear_search-skip p.end_slot slot (suc i) ps o.2)
  ]

  pub get_position_at :
      (slot : ℕ) (ps : List (Partition R))
      → get_position slot ps
        ≡ in_range slot
            (search (length ps) (ends_from slot ps))
            (get_elem? ps (search (length ps) (ends_from slot ps)))
  unfolding get_position
  get_position_at slot ps =
      elim (Option-cases (get_elem? ps (search (length ps) (ends_from slot ps)))) [
        | inl e ↦ rw (get_position, e) refl
        | inr (p, e) ↦ rw (get_position, e) refl
      ]

  -- On partitions in the order of their slots, none of which ends before its own start or starts before
  -- the end of one that precedes it (it may start at that end), the binary search finds the first partition that has the
  -- slot, and its position, or none, as looking at one after the other does.
  pub get_position-linear_search :
      (slot : ℕ) (ps : List (Partition R))
      → IsOrdered 0 ps
      → get_position slot ps ≡ linear_search slot 0 ps
  get_position-linear_search slot ps o =
      let zero_skip : 0 + skip slot ps ≡ skip slot ps = omega arith in
      get_position_at slot ps
      ∙ rw (search-skip 0 slot ps o, sym zero_skip)
          (rw zero_skip (
            ap (λ k. in_range slot k (get_elem? ps (skip slot ps))) (sym zero_skip)
            ∙ linear_search-skip 0 slot 0 ps o))

  -- The list without the first partition that has the slot.
  abbrev pub without : ℕ → List (Partition R) → List (Partition R)
  without slot [] = []
  without slot (p ∷ ps) =
      if leb p.start_slot slot && leb slot p.end_slot then ps else p ∷ without slot ps

  without-none :
      (slot i : ℕ) (ps : List (Partition R)) → linear_search slot i ps ≡ none → without slot ps ≡ ps
  without-none slot i [] h = refl
  without-none slot i (p ∷ ps) h = ground (arith, h, without-none slot (suc i) ps)

  without-some :
      (slot i k : ℕ) (ps : List (Partition R)) (p : Partition R)
      → linear_search slot i ps ≡ some (p, k)
      → (i ≤ k) × (remove_at (k - i) ps ≡ without slot ps)
  without-some slot i k [] p h = absurd (ground (arith, h))
  without-some slot i k (q ∷ ps) p h =
      elim (Bool-cases (leb q.start_slot slot && leb slot q.end_slot)) [
        | inl e ↦
            let here : i ≡ k = ground (arith, h, e) in
            let none_left : k - i ≡ 0 = omega arith in (omega arith, rw (none_left, e) refl)
        | inr e ↦
            let (later, rest) = without-some slot (suc i) k ps p (ground (arith, h, e)) in
            let one_more : k - i ≡ suc (k - suc i) = omega arith in
            (omega arith, rw (one_more, e) (ap (λ l. q ∷ l) rest))
      ]

  -- Deleting a partition takes away the first partition that has its first slot, and nothing else, from
  -- partitions in the order of their slots; without such a partition it changes nothing.
  pub delete_partition-without :
      (start_slot : ℕ) (ps : List (Partition R))
      → IsOrdered 0 ps
      → delete_partition start_slot ps ≡ without start_slot ps
  unfolding delete_partition
  delete_partition-without start_slot ps o =
      let found = get_position-linear_search start_slot ps o in
      elim (Option-cases (linear_search start_slot 0 ps)) [
        | inl e ↦ rw (delete_partition, found, e) (sym (without-none start_slot 0 ps e))
        | inr ((p, k), e) ↦
            let whole : k - 0 ≡ k = omega arith in
            rw (delete_partition, found, e, sym whole) (without-some start_slot 0 k ps p e).1
      ]
