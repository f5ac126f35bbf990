-- ===== src/ZoneMaster/TimeWheel/Count.antt =====
-- How many tasks are due after how many ticks.
use baud.Base.{
  Bool-cases, inl, inr, ℕ, zero, suc, ◌+◌, ◌-◌, ◌*◌, ◌≡◌, ◌<◌, refl, Bool, ◌&&◌, some, List, [],
  ◌∷◌, ◌++◌, ltb, leb, nat_beq, arith, Comparable, get_elem?, set_elem, if◌then◌else◌,
}
use baud.Base.Assoc.{remove}
use baud.ZoneMaster.TimeWheel.{Task, Wheel, scan_and_run_task}

-- The ticks from the hand at `cur` until it reaches the slot `p` of `n`.
abbrev pub distance : ℕ → ℕ → ℕ → ℕ
distance n cur p = if leb cur p then p - cur else p + n - cur

module _ {K D : Type 0} (chosen : K → D → Bool) (n : ℕ) where
  -- The chosen tasks of a slot at a distance `d` that are due after `r` ticks.
  abbrev pub count_slot : ℕ → ℕ → List (Task K D) → ℕ
  count_slot d r [] = 0
  count_slot d r (task ∷ l) =
      (if nat_beq (d + n * task.circle) r && chosen task.key task.load then 1 else 0)
      + count_slot d r l

  -- The same over the slots from the number `p` on.
  abbrev pub count_slots : ℕ → ℕ → ℕ → List (List (Task K D)) → ℕ
  count_slots cur p r [] = 0
  count_slots cur p r (l ∷ slots) =
      count_slot (distance n cur p) r l + count_slots cur (suc p) r slots

module _ {K D : Type 0} (chosen : K → D → Bool) where
  -- The chosen tasks of a list.
  abbrev pub count_chosen : List (Task K D) → ℕ
  count_chosen [] = 0
  count_chosen (task ∷ l) = (if chosen task.key task.load then 1 else 0) + count_chosen l

  -- The chosen tasks of a wheel that are due after `r` more ticks: 0 is the next tick.
  abbrev pub due : Wheel K D → ℕ → ℕ
  due w r = count_slots chosen w.slot_num w.current_pos 0 r w.slots

module _ {K D : Type 0} (chosen : K → D → Bool) (n : ℕ) where
  -- One tick closer.
  pub count_slot_closer :
      (d r : ℕ) (l : List (Task K D))
      → count_slot chosen n (suc d) (suc r) l ≡ count_slot chosen n d r l
  count_slot_closer d r [] = refl
  count_slot_closer d r (task ∷ l) = ground (arith, count_slot_closer d r l)

  pub count_slot-append :
      (d r : ℕ) (l k : List (Task K D))
      → count_slot chosen n d r (l ++ k) ≡ count_slot chosen n d r l + count_slot chosen n d r k
  count_slot-append d r [] k = omega arith
  count_slot-append d r (task ∷ l) k = ground (arith, count_slot-append d r l k)

  -- Writing one slot changes the count by that slot's change.
  pub count_slots-set :
      (cur p i q r : ℕ) (slots : List (List (Task K D))) (l l' : List (Task K D))
      → q ≡ p + i
      → get_elem? slots i ≡ some l
      → count_slots chosen n cur p r (set_elem slots i l')
          + count_slot chosen n (distance n cur q) r l
        ≡ count_slots chosen n cur p r slots + count_slot chosen n (distance n cur q) r l'
  count_slots-set cur p i q r [] l l' e h = absurd (ground arith)
  count_slots-set cur p zero q r (x ∷ slots) l l' e h =
      let here : q ≡ p = omega arith in let same : x ≡ l = cc in rw (here, same) (omega arith)
  count_slots-set cur p (suc i) q r (x ∷ slots) l l' e h =
      omega (arith, count_slots-set cur (suc p) i q r slots l l' (omega arith) h)

turn : (n c : ℕ) → 0 < n → 0 < c → suc (n - 1 + n * (c - 1)) ≡ n * c
turn n zero h k = absurd (omega arith)
turn n (suc c) h k = let e : suc c - 1 ≡ c = omega arith in rw e (omega arith)

no_turn : (n c : ℕ) → c ≡ 0 → n * c ≡ 0
no_turn n c h = rw h (omega arith)

module _ {K D : Type 0} ⦃keys : Comparable K⦄ (chosen : K → D → Bool) (n : ℕ) where
  -- The scan of the slot under the hand runs the tasks that are due, and leaves the others a whole
  -- turn, less this tick, away.
  pub scan_counts :
      (r : ℕ) (l : List (Task K D)) (timer : List (K × ℕ))
      → 0 < n
      → (count_slot chosen n (n - 1) r (scan_and_run_task l timer).0
          ≡ count_slot chosen n 0 (suc r) l)
        × (count_chosen chosen (scan_and_run_task l timer).1 ≡ count_slot chosen n 0 0 l)
  unfolding scan_and_run_task
  scan_counts r [] timer h = (refl, refl)
  scan_counts r (task ∷ l) timer h = elim (Bool-cases (ltb 0 task.circle)) [
    | inl waits ↦ ground (arith, turn n task.circle, scan_counts r l timer h)
    | inr now ↦ ground (arith, no_turn n task.circle, scan_counts r l (remove task.key timer) h)
  ]
