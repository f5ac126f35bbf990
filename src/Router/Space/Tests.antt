-- ===== src/Router/Space/Tests.antt =====
-- A small space, and the theorems at concrete inputs.
use baud.Base.{ℕ, ◌≡◌, inl, inr, refl, Bool, none, some, List, [], ◌∷◌, nat_beq, select, arith}
use baud.Router.Search.{search}
use baud.Router.Space.{Partition, get_position, add_routes, delete_partition}
use baud.Router.Space.Ordered.{IsOrdered}
use baud.Router.Space.Found.{get_position-linear_search}
use baud.Router.Space.Added.{add_routes_finds, add_routes_adds_last}
use baud.Router.Space.Hidden.{add_routes_hides}

abbrev part : ℕ → ℕ → ℕ → Partition ℕ
part start end route = record { start_slot = start; end_slot = end; route = route }

abbrev known : List (Partition ℕ)
known = part 0 9 1 ∷ part 20 29 3 ∷ []

-- Partitions as gm/cluster.go makes them: each ends where the next starts.
abbrev adjoining : List (Partition ℕ)
adjoining = part 0 10 1 ∷ part 10 20 2 ∷ part 20 30 3 ∷ []

get_position-linear_search_example : get_position 25 adjoining ≡ some (part 20 30 3, 2)
get_position-linear_search_example =
    get_position-linear_search 25 adjoining
      (omega arith, omega arith, (omega arith, omega arith, (omega arith, omega arith, tt)))

add_routes_finds_example :
    (add_routes (part 10 20 2 ∷ []) known ≡ part 0 9 1 ∷ part 10 20 2 ∷ part 20 29 3 ∷ [])
    × IsOrdered 0 (add_routes (part 10 20 2 ∷ []) known)
    × ((pos : ℕ) × (get_position 15 (add_routes (part 10 20 2 ∷ []) known)
          ≡ some (part 10 20 2, pos)))
add_routes_finds_example =
    add_routes_finds (part 10 20 2) known 15
      (omega arith, omega arith, (omega arith, omega arith, tt))
      (inl (omega arith), (inr (omega arith), tt)) (omega arith) (omega arith)

abbrev is_first_route : Partition ℕ → Bool
is_first_route p = nat_beq p.route 2

-- The first of two routes is lost.
add_routes_adds_last_example :
    select is_first_route (add_routes (part 10 19 2 ∷ part 30 39 4 ∷ []) known) ≡ []
add_routes_adds_last_example =
    add_routes_adds_last is_first_route (part 10 19 2 ∷ []) (part 30 39 4) known refl

-- The partition [0, 10] is no longer found once [10, 20] is added behind it.
add_routes_hides_example :
    (get_position 5 (part 0 10 1 ∷ []) ≡ some (part 0 10 1, 0))
    × (add_routes (part 10 20 2 ∷ []) (part 0 10 1 ∷ []) ≡ part 10 20 2 ∷ part 0 10 1 ∷ [])
    × (get_position 5 (add_routes (part 10 20 2 ∷ []) (part 0 10 1 ∷ [])) ≡ none)
add_routes_hides_example =
    add_routes_hides (part 10 20 2) (part 0 10 1) [] [] 5 (omega arith, omega arith, tt) refl
      (omega arith) (omega arith) (omega arith)

-- Deleting [10, 20] takes [0, 10] away.
delete_takes_neighbour : delete_partition 10 adjoining ≡ part 10 20 2 ∷ part 20 30 3 ∷ []
unfolding delete_partition get_position search
delete_takes_neighbour = refl
