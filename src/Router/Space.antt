-- ===== src/Router/Space.antt =====
-- router/model_space.go: the partitions of a space, found by the slot of a document.
-- Calls run one after the other: the code gives its lock back between looking and writing.
pub mod Ordered
pub mod Found
pub mod Added
pub mod Hidden
mod Tests
use baud.Base.{
  ℕ, zero, suc, Bool, true, false, Option, none, some, List, [], ◌∷◌, ◌++◌, ltb, leb, length,
  get_elem?, map, if◌then◌else◌,
}
use baud.Router.Search.{search}

-- What the code reads of a partition, with its route.
pub record Partition (R : Type 0) : Type 0 where
  pub start_slot : ℕ
  pub end_slot : ℕ
  pub route : R

-- In the loop of `addRoutes` a new partition points at the variable of the loop.
pub data Cell (R : Type 0) : Type 0 where
  own : Partition R → Cell R
  loop_variable : Cell R

module _ {R : Type 0} where
  -- The test of a search, which asks for numbers below the length only.
  abbrev pub ends_from : ℕ → List (Partition R) → ℕ → Bool
  ends_from slot partitions i = elim (get_elem? partitions i) [
    | none ↦ false
    | some p ↦ leb slot p.end_slot
  ]

  -- `none` is a nil partition and the position -1.
  unfoldable pub get_position : ℕ → List (Partition R) → Option (Partition R × ℕ)
  get_position slot partitions =
      let pos = search (length partitions) (ends_from slot partitions) in
      elim (get_elem? partitions pos) [
        | none ↦ none
        | some p ↦ if ltb slot p.start_slot then none else some (p, pos)
      ]

  abbrev pub value_of : Partition R → Cell R → Partition R
  value_of route (own p) = p
  value_of route loop_variable = route

  -- `xs[:pos]` and `xs[pos:]` around a new element.
  abbrev pub insert_at : ℕ → Cell R → List (Cell R) → List (Cell R)
  insert_at pos c [] = c ∷ []
  insert_at zero c (x ∷ xs) = c ∷ x ∷ xs
  insert_at (suc pos) c (x ∷ xs) = x ∷ insert_at pos c xs

  -- The body of the loop of `addRoutes`.
  unfoldable pub add_route : Partition R → List (Cell R) → List (Cell R)
  add_route route cells =
      let partitions = map (value_of route) cells in
      let pos = search (length partitions) (ends_from route.start_slot partitions) in
      elim (get_elem? partitions pos) [
        | none ↦ cells ++ (loop_variable ∷ [])
        | some p ↦
            if leb route.start_slot p.end_slot then insert_at pos loop_variable cells else cells
      ]

  -- The loop, with the cells at its end and what the variable last held, if it ran.
  unfoldable pub add_loop :
      List (Partition R)
      → Option (Partition R)
      → List (Cell R)
      → List (Cell R) × Option (Partition R)
  unfolding add_route
  add_loop [] last cells = (cells, last)
  add_loop (route ∷ routes) last cells = add_loop routes (some route) (add_route route cells)

  abbrev pub settle : List (Partition R) → List (Cell R) × Option (Partition R) → List (Partition R)
  settle partitions (cells, none) = partitions
  settle partitions (cells, some route) = map (value_of route) cells

  unfoldable pub add_routes : List (Partition R) → List (Partition R) → List (Partition R)
  unfolding add_loop
  add_routes routes partitions = settle partitions (add_loop routes none (map own partitions))

  -- `xs[:pos]` and `xs[pos + 1:]`.
  abbrev pub remove_at : ℕ → List (Partition R) → List (Partition R)
  remove_at pos [] = []
  remove_at zero (x ∷ xs) = xs
  remove_at (suc pos) (x ∷ xs) = x ∷ remove_at pos xs

  unfoldable pub delete_partition : ℕ → List (Partition R) → List (Partition R)
  unfolding get_position
  delete_partition start_slot partitions = elim (get_position start_slot partitions) [
    | none ↦ partitions
    | some (_, pos) ↦ remove_at pos partitions
  ]

  -- `routes` is the answer of the master, asked when no partition is known.
  unfoldable pub get_partition :
      ℕ → List (Partition R) → List (Partition R) → Option (Partition R) × List (Partition R)
  unfolding get_position add_routes
  get_partition slot routes partitions = elim (get_position slot partitions) [
    | some (p, pos) ↦ (some p, partitions)
    | none ↦
        let partitions' = add_routes routes partitions in
        (elim (get_position slot partitions') [ none ↦ none | some (p, pos) ↦ some p ], partitions')
  ]
