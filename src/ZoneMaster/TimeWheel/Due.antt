-- ===== src/ZoneMaster/TimeWheel/Due.antt =====
-- A tick and an added timer against a bag of countdowns.
use baud.Base.{
  ℕ, suc, ◌+◌, ◌/◌, ◌≡◌, refl, sym, ◌∙◌, Bool, ◌&&◌, List, nat_beq, arith, Comparable, ret,
  if◌then◌else◌,
}
use baud.ZoneMaster.TimeWheel.{Task, Wheel, second, scan_and_run_task, tick_handler, add_task}
use baud.ZoneMaster.TimeWheel.Count.{count_chosen, due, scan_counts}
use baud.ZoneMaster.TimeWheel.Moves.{hand_moves, added}
use baud.ZoneMaster.TimeWheel.Valid.{
  IsValid, ticked, tick_handler_at, ticked-IsValid, placed, with_task, add_task_at,
  with_task-IsValid, slot_under_hand, slot_for,
}

module _ {K D : Type 0} ⦃keys : Comparable K⦄ (chosen : K → D → Bool) where
  -- A tick of a valid wheel does not panic and leaves it valid. The callback gets exactly as many
  -- of the chosen tasks as were due, and every other task is due one tick earlier.
  pub tick_counts_down :
      (w : Wheel K D)
      → IsValid w
      → (run : List (Task K D)) × (w' : Wheel K D) × (tick_handler w ≡ ret (run, w'))
        × IsValid w'
        × (count_chosen chosen run ≡ due chosen w 0)
        × ((r : ℕ) → due chosen w' r ≡ due chosen w (suc r))
  tick_counts_down w v =
      let (l, e) = slot_under_hand w v in
      let scanned = scan_and_run_task l w.timer in
      let counts = λ (r : ℕ). scan_counts chosen w.slot_num r l w.timer v.some_slot in
      let moved = λ (r : ℕ).
        hand_moves chosen w.slot_num w.current_pos v.hand_in 0 w.current_pos r w.slots l scanned.0
          (omega arith) (omega arith) e (counts r).0 in
      (
        scanned.1,
        ticked w l,
        tick_handler_at w l e,
        ticked-IsValid w l v,
        (counts 0).1 ∙ sym (moved 0).1,
        λ r. (moved r).0,
      )

  -- Adding a timer to a valid wheel does not panic and leaves it valid: one more task is due, after
  -- as many ticks as whole intervals fit into the whole seconds of its delay, and every other task
  -- is due when it was.
  pub add_counts :
      (w : Wheel K D) (task : Task K D)
      → IsValid w
      → (w' : Wheel K D) × (add_task task w ≡ ret w')
        × IsValid w'
        × ((r : ℕ)
            → due chosen w' r
              ≡ due chosen w r
                + (if nat_beq (task.delay / second / (w.interval / second)) r
                      && chosen task.key task.load
                    then 1
                    else 0))
  add_counts w task v =
      let k = task.delay / second / (w.interval / second) in
      let (l, e) = slot_for w task v in
      (
        with_task task w l,
        add_task_at w task l v e,
        with_task-IsValid w task l v,
        λ r. added chosen w.current_pos w.slot_num k r w.slots l (placed task w) v.hand_in e refl,
      )
