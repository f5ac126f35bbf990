-- ===== src/ZoneMaster/TimeWheel/Moves.antt =====
-- How the distances of the slots change when the hand moves.
use baud.Base.{
  ℕ, zero, suc, ◌+◌, ◌-◌, ◌*◌, ◌/◌, ◌%◌, ◌≡◌, ◌≢◌, ◌≤◌, ◌<◌, refl, sym, ◌∙◌, Bool, ◌&&◌, some, List,
  [], ◌∷◌, ◌++◌, nat_beq, arith, length, get_elem?, set_elem, if◌then◌else◌,
}
use native.Mathlib.Decide.{dec_lt}
use native.Mathlib.Nat.{mod-eq_of_lt, add-mod-mod, mod-eq-sub-mod, mod-lt, div-add-mod}
use baud.ZoneMaster.TimeWheel.{Task}
use baud.ZoneMaster.TimeWheel.Count.{
  distance, count_slot, count_slots, count_slot_closer, count_slot-append, count_slots-set,
}
use baud.ZoneMaster.TimeWheel.Valid.{advance}

distance_closer :
    (n cur p : ℕ)
    → cur < n
    → p < n
    → p ≢ cur
    → distance n cur p ≡ suc (distance n (advance n cur) p)
distance_closer n cur p h k ne = ground arith

distance_turned : (n cur : ℕ) → cur < n → distance n (advance n cur) cur ≡ n - 1
distance_turned n cur h = ground arith

distance_self : (n cur : ℕ) → distance n cur cur ≡ 0
distance_self n cur = ground arith

module _ {K D : Type 0} (chosen : K → D → Bool) (n : ℕ) where
  -- No task of a slot that the hand has to travel to is due at once.
  count_slot_far : (d : ℕ) (l : List (Task K D)) → count_slot chosen n (suc d) 0 l ≡ 0
  count_slot_far d [] = refl
  count_slot_far d (task ∷ l) = ground (arith, count_slot_far d l)

  module _ (cur : ℕ) (in_range : cur < n) where
    -- The slots that are not under the hand come one tick closer.
    others_closer :
        (p r : ℕ) (slots : List (List (Task K D)))
        → cur < p
        → p + length slots ≤ n
        → (count_slots chosen n (advance n cur) p r slots
            ≡ count_slots chosen n cur p (suc r) slots)
          × (count_slots chosen n cur p 0 slots ≡ 0)
    others_closer p r [] h k = (refl, refl)
    others_closer p r (l ∷ slots) h k =
        let closer = distance_closer n cur p in_range (omega arith) (omega arith) in
        let rest = others_closer (suc p) r slots (omega arith) (omega arith) in
        (
          rw closer
              (omega (arith, count_slot_closer chosen n (distance n (advance n cur) p) r l, rest)),
          rw closer (omega (arith, count_slot_far (distance n (advance n cur) p) l, rest)),
        )

    -- All slots, with the list under the hand replaced by what its scan keeps.
    pub hand_moves :
        (p i r : ℕ) (slots : List (List (Task K D))) (l kept : List (Task K D))
        → cur ≡ p + i
        → p + length slots ≤ n
        → get_elem? slots i ≡ some l
        → count_slot chosen n (n - 1) r kept ≡ count_slot chosen n 0 (suc r) l
        → (count_slots chosen n (advance n cur) p r (set_elem slots i kept)
            ≡ count_slots chosen n cur p (suc r) slots)
          × (count_slots chosen n cur p 0 slots ≡ count_slot chosen n 0 0 l)
    hand_moves p i r [] l kept e k h q = absurd (ground arith)
    hand_moves p zero r (x ∷ slots) l kept e k h q =
        let here : p ≡ cur = omega arith in
        let same : x ≡ l = cc in
        let rest = others_closer (suc cur) r slots (omega arith) (omega arith) in
        rw (here, same, distance_turned n cur in_range, distance_self n cur)
          (omega (arith, rest, q), omega (arith, rest))
    hand_moves p (suc i) r (x ∷ slots) l kept e k h q =
        let closer = distance_closer n cur p in_range (omega arith) (omega arith) in
        let rest = hand_moves (suc p) i r slots l kept (omega arith) (omega arith) h q in
        (
          rw closer
              (omega (arith, count_slot_closer chosen n (distance n (advance n cur) p) r x, rest)),
          rw closer (omega (arith, count_slot_far (distance n (advance n cur) p) x, rest)),
        )

pub distance_added : (n cur k : ℕ) → cur < n → distance n cur ((cur + k) % n) ≡ k % n
distance_added n cur k h =
    let small : k % n < n = mod-lt k (omega arith) in
    elim (dec_lt (cur + k % n) n) [
      | yes p ↦
          let e : (cur + k) % n ≡ cur + k % n = sym (add-mod-mod cur k n) ∙ mod-eq_of_lt p in
          rw e (ground arith)
      | no p ↦
          let under : cur + k % n - n < n = omega arith in
          let over : n ≤ cur + k % n = omega arith in
          let e : (cur + k) % n ≡ cur + k % n - n =
            sym (add-mod-mod cur k n) ∙ mod-eq-sub-mod over ∙ mod-eq_of_lt under in
          rw e (ground arith)
    ]

module _ {K D : Type 0} (chosen : K → D → Bool) where
  -- A task at the end of the list that `k` ticks lead to.
  pub added :
      (cur n k r : ℕ) (slots : List (List (Task K D))) (l : List (Task K D)) (task : Task K D)
      → cur < n
      → get_elem? slots ((cur + k) % n) ≡ some l
      → task.circle ≡ k / n
      → count_slots chosen n cur 0 r (set_elem slots ((cur + k) % n) (l ++ (task ∷ [])))
        ≡ count_slots chosen n cur 0 r slots
          + (if nat_beq k r && chosen task.key task.load then 1 else 0)
  added cur n k r slots l task h e c =
      let d = distance_added n cur k h in
      let whole : k % n + n * task.circle ≡ k = rw c (omega (arith, div-add-mod k n)) in
      let one : count_slot chosen n (distance n cur ((cur + k) % n)) r (task ∷ [])
          ≡ (if nat_beq k r && chosen task.key task.load then 1 else 0) =
        rw (d, whole) (omega arith) in
      omega (
        arith,
        one,
        count_slots-set chosen n cur 0 ((cur + k) % n) ((cur + k) % n) r slots l (l ++ (task ∷ []))
            (omega arith) e,
        count_slot-append chosen n (distance n cur ((cur + k) % n)) r l (task ∷ []),
      )
