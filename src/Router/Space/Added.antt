-- ===== src/Router/Space/Added.antt =====
-- The routes that the master answers, added to the partitions.
use baud.Base.{
  ℕ, zero, suc, ◌≡◌, ◌≤◌, ◌<◌, ◌⊎◌, refl, ap, sym, ◌∙◌, Bool, Bool-cases, inl, inr, true, false,
  Option, none, some, List, [], ◌∷◌, ◌++◌, leb, length, get_elem?, map, select, arith,
  if◌then◌else◌, Option-cases,
}
use mathlib.Core.Path.{subst}
use baud.Router.Search.{search}
use baud.Router.Space.{
  Partition, Cell, own, loop_variable, ends_from, value_of, insert_at, add_route, add_loop, settle,
  add_routes, get_position,
}
use baud.Router.Space.Ordered.{IsOrdered, skip, linear_search, search-skip}
use baud.Router.Space.Found.{get_position-linear_search}

module _ {R : Type 0} where
  map_own : (route : Partition R) (ps : List (Partition R)) → map (value_of route) (map own ps) ≡ ps
  map_own route [] = refl
  map_own route (p ∷ ps) = ap (λ k. p ∷ k) (map_own route ps)

  module _ (test : Partition R → Bool) (last : Partition R) (fails : test last ≡ false) where
    select-insert_at :
        (pos : ℕ) (cells : List (Cell R))
        → select test (map (value_of last) (insert_at pos loop_variable cells))
          ≡ select test (map (value_of last) cells)
    select-insert_at pos [] = rw fails refl
    select-insert_at zero (c ∷ cells) = rw fails refl
    select-insert_at (suc pos) (c ∷ cells) = rw (select-insert_at pos cells) refl

    select-append :
        (cells : List (Cell R))
        → select test (map (value_of last) (cells ++ (loop_variable ∷ [])))
          ≡ select test (map (value_of last) cells)
    select-append [] = rw fails refl
    select-append (c ∷ cells) = rw (select-append cells) refl

    select-add_route :
        (route : Partition R) (cells : List (Cell R))
        → select test (map (value_of last) (add_route route cells))
          ≡ select test (map (value_of last) cells)
    unfolding add_route
    select-add_route route cells =
        let ps = map (value_of route) cells in
        let pos = search (length ps) (ends_from route.start_slot ps) in
        elim (Option-cases (get_elem? ps pos)) [
          | inl e ↦ rw (add_route, e) (select-append cells)
          | inr (p, e) ↦ elim (Bool-cases (leb route.start_slot p.end_slot)) [
            | inl b ↦ rw (add_route, e, b) (select-insert_at pos cells)
            | inr b ↦ rw (add_route, e, b) refl
          ]
        ]

    select-add_loop :
        (routes : List (Partition R)) (held : Option (Partition R)) (cells : List (Cell R))
        → select test (map (value_of last) (add_loop routes held cells).0)
          ≡ select test (map (value_of last) cells)
    unfolding add_loop
    select-add_loop [] held cells = refl
    select-add_loop (route ∷ routes) held cells =
        select-add_loop routes (some route) (add_route route cells) ∙ select-add_route route cells

  last_held :
      (routes : List (Partition R)) (route : Partition R) (held : Option (Partition R))
      (cells : List (Cell R))
      → (add_loop (routes ++ (route ∷ [])) held cells).1 ≡ some route
  unfolding add_loop
  last_held [] route held cells = refl
  last_held (r ∷ routes) route held cells = last_held routes route (some r) (add_route r cells)

  settle_lem :
      (ps : List (Partition R)) (cells : List (Cell R)) (held : Option (Partition R))
      (route : Partition R)
      → held ≡ some route
      → settle ps (cells, held) ≡ map (value_of route) cells
  settle_lem ps cells none route e = absurd (ground (arith, e))
  settle_lem ps cells (some r) route e = let h : r ≡ route = cc in rw h refl

  -- Several routes in one answer: whatever test the last of them fails, the partitions that pass it
  -- are the same before and after. So all that is added are copies of the last route.
  pub add_routes_adds_last :
      (test : Partition R → Bool) (routes : List (Partition R)) (last : Partition R)
      (ps : List (Partition R))
      → test last ≡ false
      → select test (add_routes (routes ++ (last ∷ [])) ps) ≡ select test ps
  unfolding add_routes
  add_routes_adds_last test routes last ps fails =
      let all = routes ++ (last ∷ []) in
      let cells = map own ps in
      ap (select test) (
        settle_lem ps (add_loop all none cells).0 (add_loop all none cells).1 last
          (last_held routes last none cells))
      ∙ select-add_loop test last fails all none cells
      ∙ ap (select test) (map_own last ps)

  -- The partition before the first that ends at its start or later.
  abbrev pub place : Partition R → List (Partition R) → List (Partition R)
  place route [] = route ∷ []
  place route (p ∷ ps) =
      if leb route.start_slot p.end_slot then route ∷ p ∷ ps else p ∷ place route ps

  insert_at-skip :
      (route : Partition R) (ps : List (Partition R))
      → map (value_of route) (insert_at (skip route.start_slot ps) loop_variable (map own ps))
        ≡ place route ps
  insert_at-skip route [] = refl
  insert_at-skip route (p ∷ ps) = elim (Bool-cases (leb route.start_slot p.end_slot)) [
    | inl e ↦ rw e (ap (λ k. route ∷ p ∷ k) (map_own route ps))
    | inr e ↦ rw e (ap (λ k. p ∷ k) (insert_at-skip route ps))
  ]

  append-skip :
      (route : Partition R) (ps : List (Partition R))
      → get_elem? ps (skip route.start_slot ps) ≡ none
      → map (value_of route) (map own ps ++ (loop_variable ∷ [])) ≡ place route ps
  append-skip route [] h = refl
  append-skip route (p ∷ ps) h = elim (Bool-cases (leb route.start_slot p.end_slot)) [
    | inl e ↦ absurd (ground (arith, h, e))
    | inr e ↦ rw e (ap (λ k. p ∷ k) (append-skip route ps (ground (arith, h, e))))
  ]

  skip_ends :
      (slot : ℕ) (ps : List (Partition R)) (p : Partition R)
      → get_elem? ps (skip slot ps) ≡ some p
      → leb slot p.end_slot ≡ true
  skip_ends slot [] p h = absurd (ground (arith, h))
  skip_ends slot (q ∷ ps) p h = elim (Bool-cases (leb slot q.end_slot)) [
    | inl e ↦ ground (arith, h, e)
    | inr e ↦ skip_ends slot ps p (ground (arith, h, e))
  ]

  add_route-place :
      (route : Partition R) (ps : List (Partition R))
      → IsOrdered 0 ps
      → map (value_of route) (add_route route (map own ps)) ≡ place route ps
  unfolding add_route
  add_route-place route ps o =
      let qs = map (value_of route) (map own ps) in
      let pos : search (length qs) (ends_from route.start_slot qs) ≡ skip route.start_slot ps =
        rw (map_own route ps) (search-skip 0 route.start_slot ps o) in
      elim (Option-cases (get_elem? ps (skip route.start_slot ps))) [
        | inl e ↦
            let f : get_elem? qs (skip route.start_slot ps) ≡ none = rw (map_own route ps) e in
            rw (add_route, pos, f) (append-skip route ps e)
        | inr (p, e) ↦
            let f : get_elem? qs (skip route.start_slot ps) ≡ some p = rw (map_own route ps) e in
            let b = skip_ends route.start_slot ps p e in
            rw (add_route, pos, f, b, pos) (insert_at-skip route ps)
      ]

  pub add_routes-place :
      (route : Partition R) (ps : List (Partition R))
      → IsOrdered 0 ps
      → add_routes (route ∷ []) ps ≡ place route ps
  unfolding add_routes add_loop
  add_routes-place route ps o = add_route-place route ps o

  -- Each of the others ends before a partition starts, or starts at its end or later.
  abbrev pub Fits : Partition R → List (Partition R) → Type 0
  Fits route [] = Unit
  Fits route (p ∷ ps) =
      ((p.end_slot < route.start_slot) ⊎ (route.end_slot ≤ p.start_slot)) × Fits route ps

  place-IsOrdered :
      (low : ℕ) (route : Partition R) (ps : List (Partition R))
      → low ≤ route.start_slot
      → route.start_slot ≤ route.end_slot
      → Fits route ps
      → IsOrdered low ps
      → IsOrdered low (place route ps)
  place-IsOrdered low route [] h k f o = (h, k, tt)
  place-IsOrdered low route (p ∷ ps) h k f o = elim (Bool-cases (leb route.start_slot p.end_slot)) [
    | inl e ↦
        let after : route.end_slot ≤ p.start_slot = ground (arith, f.0, e) in
        rw e (h, k, (after, o.1, o.2))
    | inr e ↦
        let later : p.end_slot ≤ route.start_slot = ground (arith, e) in
        rw e (o.0, o.1, place-IsOrdered p.end_slot route ps later k f.1 o.2)
  ]

  linear_search-place :
      (slot i : ℕ) (route : Partition R) (ps : List (Partition R))
      → route.start_slot ≤ slot
      → slot ≤ route.end_slot
      → Fits route ps
      → (pos : ℕ) × (linear_search slot i (place route ps) ≡ some (route, pos))
  linear_search-place slot i route [] h k f = (i, ground arith)
  linear_search-place slot i route (p ∷ ps) h k f =
      elim (Bool-cases (leb route.start_slot p.end_slot)) [
        | inl e ↦ (i, rw e (ground arith))
        | inr e ↦
            let (pos, q) = linear_search-place slot (suc i) route ps h k f.1 in
            (pos, rw e (ground (arith, q, e, h)))
      ]

  -- One route in the answer, where the known partitions are in the order of their slots, and each of
  -- them ends before the route starts or starts at the route's end or later: they stay in order, every
  -- slot of the route is then found in it, and no partition but the route is added, at its place.
  pub add_routes_finds :
      (route : Partition R) (ps : List (Partition R)) (slot : ℕ)
      → IsOrdered 0 ps
      → Fits route ps
      → route.start_slot ≤ slot
      → slot ≤ route.end_slot
      → (add_routes (route ∷ []) ps ≡ place route ps)
        × IsOrdered 0 (add_routes (route ∷ []) ps)
        × ((pos : ℕ) × (get_position slot (add_routes (route ∷ []) ps) ≡ some (route, pos)))
  add_routes_finds route ps slot o f h k =
      let placed : add_routes (route ∷ []) ps ≡ place route ps = add_routes-place route ps o in
      let ordered = place-IsOrdered 0 route ps (omega arith) (omega arith) f o in
      let (pos, q) = linear_search-place slot 0 route ps h k f in
      (
        placed,
        subst (IsOrdered 0) (sym placed) ordered,
        (pos, rw placed (get_position-linear_search slot (place route ps) ordered ∙ q)),
      )
