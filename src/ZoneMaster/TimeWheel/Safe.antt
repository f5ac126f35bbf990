-- ===== src/ZoneMaster/TimeWheel/Safe.antt =====
-- No call panics on a wheel whose timers point at its slots.
use baud.Base.{
  ℕ, ◌+◌, ◌/◌, ◌≡◌, ◌≤◌, ◌<◌, inl, inr, refl, ◌∙◌, true, false, Bool-cases, Option, none, some,
  Option-cases, List, [], ◌∷◌, nat_beq, arith, Comparable, Outcome, ret, panic, length-replicate,
  replicate, set_elem, length-set_elem, get_elem?, if◌then◌else◌,
}
use native.Mathlib.Nat.{mod-lt}
use baud.Base.Assoc.{lookup, remove, lookup-insert, lookup-remove}
use baud.ZoneMaster.TimeWheel.{
  Task, Wheel, Event, tick, add_timer, remove_timer, second, new_time_wheel, scan_and_run_task,
  remove_first, has_key, remove_task, handle, add_task, get_position_and_circle,
}
use baud.ZoneMaster.TimeWheel.Keys.{scan-lookup}
use baud.ZoneMaster.TimeWheel.Valid.{
  IsValid, get_elem?_in, ticked, tick_handler_at, ticked-IsValid, slot_of, with_task, add_task_at,
  with_task-IsValid, slot_under_hand, slot_for,
}

module _ {K D : Type 0} ⦃keys : Comparable K⦄ where
  pub record IsSafe (w : Wheel K D) : Type 0 where
    pub valid : IsValid w
    pub timers_in : (key : K) (p : ℕ) → lookup key w.timer ≡ some p → p < w.slot_num

  -- The wheel after `removeTask` found the slot `p`, which holds `l`.
  abbrev pub without : K → ℕ → Wheel K D → List (Task K D) → Wheel K D
  without key p w l = record w {
    slots = set_elem w.slots p (remove_first key l);
    timer = if has_key key l then remove key w.timer else w.timer;
  }

  abbrev pub new_task : ℕ → K → D → Task K D
  new_task delay key load = record { delay = delay; circle = 0; key = key; load = load }

  remove_task_at :
      (key : K) (p : ℕ) (w : Wheel K D) (l : List (Task K D))
      → lookup key w.timer ≡ some p
      → get_elem? w.slots p ≡ some l
      → remove_task key w ≡ ret (without key p w l)
  unfolding remove_task
  remove_task_at key p w l e q = rw (remove_task, e, q) refl

  -- The ways in which a call leaves a wheel: the run tasks and the wheel.
  pub data Handled (w : Wheel K D) : Event K D → List (Task K D) → Wheel K D → Type 0 where
    ticking :
        (l : List (Task K D))
        → get_elem? w.slots w.current_pos ≡ some l
        → Handled w tick (scan_and_run_task l w.timer).1 (ticked w l)
    no_add : (delay : ℕ) (key : Option K) (load : D) → Handled w (add_timer delay key load) [] w
    adding :
        (delay : ℕ) (key : K) (load : D) (l : List (Task K D))
        → get_elem? w.slots (slot_of (new_task delay key load) w) ≡ some l
        → Handled w (add_timer delay (some key) load) [] (with_task (new_task delay key load) w l)
    no_key : Handled w (remove_timer none) [] w
    no_timer : (key : K) → lookup key w.timer ≡ none → Handled w (remove_timer (some key)) [] w
    removing :
        (key : K) (p : ℕ) (l : List (Task K D))
        → lookup key w.timer ≡ some p
        → get_elem? w.slots p ≡ some l
        → Handled w (remove_timer (some key)) [] (without key p w l)

  pub handle-Handled :
      (event : Event K D) (w : Wheel K D)
      → IsSafe w
      → (run : List (Task K D)) × (w' : Wheel K D) × (handle event w ≡ ret (run, w'))
        × Handled w event run w'
  unfolding handle
  handle-Handled tick w s =
      let (l, e) = slot_under_hand w s.valid in (_, ticked w l, tick_handler_at w l e, ticking l e)
  handle-Handled (add_timer delay none load) w s = ([], w, refl, no_add delay none load)
  handle-Handled (add_timer delay (some key) load) w s = elim (Bool-cases (nat_beq delay 0)) [
    | inl zero_delay ↦ ([], w, rw (handle, zero_delay) refl, no_add delay (some key) load)
    | inr positive ↦
        let task = new_task delay key load in
        let (l, e) = slot_for w task s.valid in
        (
          [],
          with_task task w l,
          rw (handle, positive, add_task_at w task l s.valid e) refl,
          adding delay key load l e,
        )
  ]
  handle-Handled (remove_timer none) w s = ([], w, refl, no_key)
  handle-Handled (remove_timer (some key)) w s = elim (Option-cases (lookup key w.timer)) [
    | inl e ↦ ([], w, rw (handle, remove_task, e) refl, no_timer key e)
    | inr (p, e) ↦
        let (l, q) =
          get_elem?_in w.slots p (omega (arith, s.timers_in key p e, s.valid.all_slots)) in
        (
          [],
          without key p w l,
          rw (handle, remove_task_at key p w l e q) refl,
          removing key p l e q,
        )
  ]

  pub Handled-IsSafe :
      (event : Event K D) (w w' : Wheel K D) (run : List (Task K D))
      → Handled w event run w'
      → IsSafe w
      → IsSafe w'
  Handled-IsSafe _ w _ _ (ticking l e) s = record {
    valid = ticked-IsValid w l s.valid;
    timers_in = λ key p e. s.timers_in key p (scan-lookup key l w.timer p e);
  }
  Handled-IsSafe _ w _ _ (no_add delay key load) s = s
  Handled-IsSafe _ w _ _ (adding delay key load l e) s =
      let task : Task K D = new_task delay key load in
      let k = delay / second / (w.interval / second) in
      let small : slot_of task w < w.slot_num = mod-lt (w.current_pos + k) s.valid.some_slot in
      record {
        valid = with_task-IsValid w task l s.valid;
        timers_in = λ other p e. ground (
          arith,
          small,
          e,
          lookup-insert key other (slot_of task w) w.timer,
          s.timers_in other p,
        );
      }
  Handled-IsSafe _ w _ _ no_key s = s
  Handled-IsSafe _ w _ _ (no_timer key e) s = s
  Handled-IsSafe _ w _ _ (removing key p l e q) s = record {
    valid = record {
      whole_seconds = s.valid.whole_seconds;
      some_slot = s.valid.some_slot;
      all_slots = length-set_elem w.slots p (remove_first key l) ∙ s.valid.all_slots;
      hand_in = s.valid.hand_in;
    };
    timers_in =
        λ other q e. ground (arith, e, lookup-remove key other w.timer, s.timers_in other q);
  }

  abbrev fresh : ℕ → ℕ → Wheel K D
  fresh interval slot_num = record {
    interval = interval;
    slots = replicate slot_num [];
    timer = [];
    current_pos = 0;
    slot_num = slot_num;
  }

  new_time_wheel-fresh :
      (interval slot_num : ℕ)
      → 0 < interval
      → 0 < slot_num
      → new_time_wheel interval slot_num true ≡ some (fresh interval slot_num)
  unfolding new_time_wheel
  new_time_wheel-fresh interval slot_num h k = ground arith

  fresh-IsSafe :
      (interval slot_num : ℕ) → second ≤ interval → 0 < slot_num → IsSafe (fresh interval slot_num)
  unfolding lookup
  fresh-IsSafe interval slot_num h k = record {
    valid = record {
      whole_seconds = omega arith;
      some_slot = k;
      all_slots = length-replicate slot_num [];
      hand_in = k;
    };
    timers_in = λ key p e. absurd (ground (arith, e));
  }

  -- What the loop `start` does with a sequence of events: the tasks handed out by each, and the
  -- wheel.
  abbrev pub handle_all :
      List (Event K D) → Wheel K D → Outcome (List (List (Task K D)) × Wheel K D)
  handle_all [] w = ret ([], w)
  handle_all (event ∷ events) w = elim (handle event w) [
    | panic ↦ panic
    | ret (run, w') ↦ elim (handle_all events w') [
      | panic ↦ panic
      | ret (runs, w'') ↦ ret (run ∷ runs, w'')
    ]
  ]

  handle_all-IsSafe :
      (events : List (Event K D)) (w : Wheel K D)
      → IsSafe w
      → (runs : List (List (Task K D))) × (w' : Wheel K D) × (handle_all events w ≡ ret (runs, w'))
        × IsSafe w'
  handle_all-IsSafe [] w s = ([], w, refl, s)
  handle_all-IsSafe (event ∷ events) w s =
      let (run, w1, e1, h) = handle-Handled event w s in
      let (runs, w2, e2, s2) = handle_all-IsSafe events w1 (Handled-IsSafe event w w1 run h s) in
      (run ∷ runs, w2, rw (handle_all, e1, e2) refl, s2)

  -- `NewTimeWheel` with an interval of at least a second, a slot and a callback makes a wheel on which no
  -- sequence of ticks, added timers and removed timers panics, and the wheel stays one whose timers
  -- point at its slots.
  pub start-IsSafe :
      (interval slot_num : ℕ) (events : List (Event K D))
      → second ≤ interval
      → 0 < slot_num
      → (w : Wheel K D) × (runs : List (List (Task K D))) × (w' : Wheel K D) × (new_time_wheel
            interval slot_num true
          ≡ some w)
        × (handle_all events w ≡ ret (runs, w'))
        × IsSafe w'
  start-IsSafe interval slot_num events h k =
      let w = fresh interval slot_num in
      let (runs, w', e, s) = handle_all-IsSafe events w (fresh-IsSafe interval slot_num h k) in
      (w, runs, w', new_time_wheel-fresh interval slot_num (omega arith) k, e, s)

  -- `NewTimeWheel` with a callback accepts an interval of less than a second, and then every timer with a positive
  -- delay and a key that is not nil panics.
  pub subsecond_panics :
      (interval slot_num delay : ℕ) (key : K) (load : D)
      → 0 < interval
      → interval < second
      → 0 < slot_num
      → 0 < delay
      → (w : Wheel K D) × (new_time_wheel interval slot_num true ≡ some w)
        × (handle (add_timer delay (some key) load) w ≡ panic)
  unfolding handle add_task get_position_and_circle
  subsecond_panics interval slot_num delay key load a b c d =
      let none_whole : interval / second ≡ 0 = omega arith in
      let positive : nat_beq delay 0 ≡ false = ground arith in
      (
        fresh interval slot_num,
        new_time_wheel-fresh interval slot_num a c,
        rw (handle, add_task, get_position_and_circle, none_whole, positive) refl,
      )
