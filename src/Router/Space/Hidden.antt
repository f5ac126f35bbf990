-- ===== src/Router/Space/Hidden.antt =====
-- A route that starts at the last slot of a known partition, as the partitions of gm/cluster.go do.
use baud.Base.{
  ℕ, zero, suc, ◌≡◌, ◌≤◌, ◌<◌, refl, ◌∙◌, Bool-cases, inl, inr, true, false, none, some, List, [],
  ◌∷◌, ◌++◌, leb, length, get_elem?, arith,
}
use baud.Router.Search.{search, IsFirst-unique, search-IsFirst}
use baud.Router.Space.{Partition, ends_from, add_routes, get_position, delete_partition, remove_at}
use baud.Router.Space.Ordered.{IsOrdered}
use baud.Router.Space.Found.{in_range, get_position_at}
use baud.Router.Space.Added.{place, add_routes-place}

module _ {R : Type 0} where
  abbrev AllBefore : ℕ → List (Partition R) → Type 0
  AllBefore slot [] = Unit
  AllBefore slot (p ∷ ps) = (p.end_slot < slot) × AllBefore slot ps

  abbrev AllEnd : ℕ → List (Partition R) → Type 0
  AllEnd slot [] = Unit
  AllEnd slot (p ∷ ps) = (slot ≤ p.end_slot) × AllEnd slot ps

  ends_from-before :
      (slot : ℕ) (bs ls : List (Partition R)) (i : ℕ)
      → AllBefore slot bs
      → i < length bs
      → ends_from slot (bs ++ ls) i ≡ false
  ends_from-before slot [] ls i b h = absurd (omega arith)
  ends_from-before slot (p ∷ bs) ls zero b h = ground (arith, b.0)
  ends_from-before slot (p ∷ bs) ls (suc i) b h = ends_from-before slot bs ls i b.1 (omega arith)

  ends_from-all :
      (slot : ℕ) (ls : List (Partition R)) (i : ℕ)
      → AllEnd slot ls
      → i < length ls
      → ends_from slot ls i ≡ true
  ends_from-all slot [] i a h = absurd (omega arith)
  ends_from-all slot (p ∷ ls) zero a h = ground (arith, a.0)
  ends_from-all slot (p ∷ ls) (suc i) a h = ends_from-all slot ls i a.1 (omega arith)

  ends_from-after :
      (slot : ℕ) (bs ls : List (Partition R)) (i : ℕ)
      → AllEnd slot ls
      → length bs ≤ i
      → i < length (bs ++ ls)
      → ends_from slot (bs ++ ls) i ≡ true
  ends_from-after slot [] ls i a h k = ends_from-all slot ls i a k
  ends_from-after slot (p ∷ bs) ls zero a h k = absurd (omega arith)
  ends_from-after slot (p ∷ bs) ls (suc i) a h k =
      ends_from-after slot bs ls i a (omega arith) (omega arith)

  length-front : (bs ls : List (Partition R)) → length bs ≤ length (bs ++ ls)
  length-front [] ls = omega arith
  length-front (p ∷ bs) ls = omega (arith, length-front bs ls)

  -- A search passes what ends before the slot, and nothing else, however the rest is ordered.
  search-front :
      (slot : ℕ) (bs ls : List (Partition R))
      → AllBefore slot bs
      → AllEnd slot ls
      → search (length (bs ++ ls)) (ends_from slot (bs ++ ls)) ≡ length bs
  search-front slot bs ls b a =
      let n = length (bs ++ ls) in
      let f = ends_from slot (bs ++ ls) in
      let monotone : (x y : ℕ) → x ≤ y → y < n → f x ≡ true → f y ≡ true = λ x y h k e.
        elim (Bool-cases (leb (length bs) x)) [
          | inl c ↦ ends_from-after slot bs ls y a (ground (arith, c, h)) k
          | inr c ↦
              let no = ends_from-before slot bs ls x b (ground (arith, c)) in
              absurd (ground (arith, no, e))
        ] in
      IsFirst-unique n f (search n f) (length bs) (search-IsFirst n f monotone) (record {
        bounded = length-front bs ls;
        before = λ i h. ends_from-before slot bs ls i b h;
        passes = λ h. ends_from-after slot bs ls (length bs) a (omega arith) h;
      })

  get_elem?-front :
      (bs ls : List (Partition R)) (p : Partition R)
      → get_elem? (bs ++ (p ∷ ls)) (length bs) ≡ some p
  get_elem?-front [] ls p = refl
  get_elem?-front (b ∷ bs) ls p = get_elem?-front bs ls p

  get_position-front :
      (slot : ℕ) (bs ls : List (Partition R)) (p : Partition R)
      → AllBefore slot bs
      → AllEnd slot (p ∷ ls)
      → get_position slot (bs ++ (p ∷ ls)) ≡ in_range slot (length bs) (some p)
  get_position-front slot bs ls p b a =
      get_position_at slot (bs ++ (p ∷ ls))
      ∙ rw (search-front slot bs (p ∷ ls) b a, get_elem?-front bs ls p) refl

  low_front :
      (low : ℕ) (bs ls : List (Partition R)) (q : Partition R)
      → IsOrdered low (bs ++ (q ∷ ls))
      → low ≤ q.start_slot
  low_front low [] ls q o = o.0
  low_front low (b ∷ bs) ls q o =
      let rest = low_front b.end_slot bs ls q o.2 in omega (arith, o.0, o.1, rest)

  ordered_before :
      (low slot : ℕ) (bs ls : List (Partition R)) (q : Partition R)
      → IsOrdered low (bs ++ (q ∷ ls))
      → q.start_slot < slot
      → AllBefore slot bs
  ordered_before low slot [] ls q o h = tt
  ordered_before low slot (b ∷ bs) ls q o h =
      let bound = low_front b.end_slot bs ls q o.2 in
      (omega (arith, bound), ordered_before b.end_slot slot bs ls q o.2 h)

  ordered_end :
      (low slot : ℕ) (ls : List (Partition R)) → IsOrdered low ls → slot ≤ low → AllEnd slot ls
  ordered_end low slot [] o h = tt
  ordered_end low slot (p ∷ ls) o h =
      let later : slot ≤ p.end_slot = omega (arith, o.0, o.1) in
      (later, ordered_end p.end_slot slot ls o.2 later)

  ordered_after :
      (low slot : ℕ) (bs ls : List (Partition R)) (q : Partition R)
      → IsOrdered low (bs ++ (q ∷ ls))
      → slot ≤ q.end_slot
      → AllEnd slot (q ∷ ls)
  ordered_after low slot [] ls q o h = (h, ordered_end q.end_slot slot ls o.2 h)
  ordered_after low slot (b ∷ bs) ls q o h = ordered_after b.end_slot slot bs ls q o.2 h

  place-front :
      (route q : Partition R) (bs ls : List (Partition R))
      → AllBefore route.start_slot bs
      → route.start_slot ≤ q.end_slot
      → place route (bs ++ (q ∷ ls)) ≡ bs ++ (route ∷ q ∷ ls)
  place-front route q [] ls b h = ground arith
  place-front route q (p ∷ bs) ls b h = ground (arith, b.0, place-front route q bs ls b.1 h)

  -- Partitions in the order of their slots, none of which ends before its own start or starts before
  -- the end of one that precedes it, and one route in the answer, which starts at the last slot of one
  -- of them and does not end before that: the route goes before that partition, and every slot strictly
  -- between the first and the last of that partition, which was found in it, is then found in none.
  pub add_routes_hides :
      (route q : Partition R) (bs ls : List (Partition R)) (slot : ℕ)
      → IsOrdered 0 (bs ++ (q ∷ ls))
      → q.end_slot ≡ route.start_slot
      → route.start_slot ≤ route.end_slot
      → q.start_slot < slot
      → slot < q.end_slot
      → (get_position slot (bs ++ (q ∷ ls)) ≡ some (q, length bs))
        × (add_routes (route ∷ []) (bs ++ (q ∷ ls)) ≡ bs ++ (route ∷ q ∷ ls))
        × (get_position slot (add_routes (route ∷ []) (bs ++ (q ∷ ls))) ≡ none)
  add_routes_hides route q bs ls slot o same k h g =
      let early = ordered_before 0 slot bs ls q o h in
      let late = ordered_after 0 slot bs ls q o (omega arith) in
      let passed = ordered_before 0 route.start_slot bs ls q o (omega arith) in
      let placed =
        add_routes-place route (bs ++ (q ∷ ls)) o
        ∙ place-front route q bs ls passed (omega arith) in
      let found = get_position-front slot bs ls q early late in
      let missed = get_position-front slot bs (q ∷ ls) route early (omega arith, late) in
      (found ∙ ground arith, placed, rw placed (missed ∙ ground arith))

  remove_at-front :
      (bs ls : List (Partition R)) (q : Partition R)
      → remove_at (length bs) (bs ++ (q ∷ ls)) ≡ bs ++ ls
  remove_at-front [] ls q = refl
  remove_at-front (b ∷ bs) ls q = ground (arith, remove_at-front bs ls q)

  -- Partitions in the order of their slots, one of which is not a single slot: deleting a partition
  -- that starts at its last slot takes it away, and only it.
  pub delete_partition_takes_neighbour :
      (start_slot : ℕ) (q : Partition R) (bs ls : List (Partition R))
      → IsOrdered 0 (bs ++ (q ∷ ls))
      → q.end_slot ≡ start_slot
      → q.start_slot < q.end_slot
      → delete_partition start_slot (bs ++ (q ∷ ls)) ≡ bs ++ ls
  unfolding delete_partition
  delete_partition_takes_neighbour start_slot q bs ls o same h =
      let early = ordered_before 0 start_slot bs ls q o (omega arith) in
      let late = ordered_after 0 start_slot bs ls q o (omega arith) in
      let found : get_position start_slot (bs ++ (q ∷ ls)) ≡ some (q, length bs) =
        get_position-front start_slot bs ls q early late ∙ ground arith in
      rw (delete_partition, found) (remove_at-front bs ls q)
