-- ===== src/ZoneMaster/TimeWheel/Fires.antt =====
-- A timer from `AddTimer` until its callback, over any number of ticks.
use baud.Base.{
  ℕ, zero, suc, ◌+◌, ◌/◌, ◌≡◌, ◌<◌, refl, ap, ◌∙◌, Bool, false, ◌&&◌, some, List, [], nat_beq,
  arith, Comparable, Outcome, ret, panic, if◌then◌else◌,
}
use baud.ZoneMaster.TimeWheel.{Task, Wheel, second, tick, add_timer, handle}
use baud.ZoneMaster.TimeWheel.Count.{count_chosen, due}
use baud.ZoneMaster.TimeWheel.Valid.{IsValid}
use baud.ZoneMaster.TimeWheel.Due.{tick_counts_down, add_counts}

module _ {K D : Type 0} ⦃keys : Comparable K⦄ where
  -- The wheel after a number of ticks.
  unfoldable pub wait : ℕ → Wheel K D → Outcome (Wheel K D)
  wait zero w = ret w
  wait (suc k) w = elim (handle tick w) [ panic ↦ panic | ret (run, w') ↦ wait k w' ]

  module _ (chosen : K → D → Bool) where
    wait_counts :
        (k : ℕ) (w : Wheel K D)
        → IsValid w
        → (w' : Wheel K D) × (wait k w ≡ ret w')
          × IsValid w'
          × ((r : ℕ) → due chosen w' r ≡ due chosen w (k + r))
    unfolding wait handle
    wait_counts zero w v = (w, refl, v, λ r. ap (due chosen w) (omega arith))
    wait_counts (suc k) w v =
        let (run, w1, e, v1, c, d) = tick_counts_down chosen w v in
        let (w2, e2, v2, d2) = wait_counts k w1 v1 in
        (w2, rw (wait, handle, e) e2, v2, λ r. d2 r ∙ d (k + r) ∙ ap (due chosen w) (omega arith))

    -- `AddTimer` with a positive delay on a valid wheel, then `k` ticks: nothing panics, and the next
    -- tick hands out exactly the chosen tasks that were due then without the new timer, and the new
    -- timer exactly when `k` is the number of whole intervals in the whole seconds of its delay.
    pub timer_fires :
        (w : Wheel K D) (delay : ℕ) (key : K) (load : D) (k : ℕ)
        → IsValid w
        → 0 < delay
        → (w1 : Wheel K D) × (w2 : Wheel K D) × (run : List (Task K D)) × (w3 : Wheel K D) × (handle
              (add_timer delay (some key) load)
              w
            ≡ ret ([], w1))
          × (wait k w1 ≡ ret w2)
          × (handle tick w2 ≡ ret (run, w3))
          × (count_chosen chosen run
              ≡ due chosen w k
                + (if nat_beq (delay / second / (w.interval / second)) k && chosen key load
                    then 1
                    else 0))
    unfolding handle
    timer_fires w delay key load k v h =
        let task : Task K D = record { delay = delay; circle = 0; key = key; load = load } in
        let (w1, e1, v1, d1) = add_counts chosen w task v in
        let (w2, e2, v2, d2) = wait_counts k w1 v1 in
        let (run, w3, e3, v3, c, d3) = tick_counts_down chosen w2 v2 in
        let positive : nat_beq delay 0 ≡ false = ground arith in
        (
          w1,
          w2,
          run,
          w3,
          rw (handle, positive, e1) refl,
          e2,
          e3,
          c ∙ d2 0 ∙ ap (due chosen w1) (omega arith) ∙ d1 k,
        )
