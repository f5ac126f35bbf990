-- ===== src/ZoneMaster/TimeWheel/Tests.antt =====
-- Runs of a small wheel, and the theorems at concrete inputs.
use baud.Base.{
  ℕ, ◌≡◌, refl, Bool, true, some, List, [], ◌∷◌, arith, ret, panic, ◌*◌, nat_eq, zero, suc,
}
use baud.Base.Assoc.{lookup}
use baud.ZoneMaster.TimeWheel.{
  Task, Wheel, Event, tick, add_timer, remove_timer, second, handle, new_time_wheel, tick_handler,
}
use baud.ZoneMaster.TimeWheel.Count.{count_chosen, due}
use baud.ZoneMaster.TimeWheel.Valid.{IsValid}
use baud.ZoneMaster.TimeWheel.Due.{tick_counts_down}
use baud.ZoneMaster.TimeWheel.Fires.{wait, timer_fires}
use baud.ZoneMaster.TimeWheel.Safe.{IsSafe, handle_all, start-IsSafe, subsecond_panics}
use baud.ZoneMaster.TimeWheel.Tracks.{IsClear}
use baud.ZoneMaster.TimeWheel.Cancel.{count_runs, removed_never_fires}

-- The task 9 waits in the slot after the one under the hand, for one more turn.
abbrev task : Task ℕ ℕ
task = record { delay = 4 * second; circle = 1; key = 9; load = 90 }

abbrev wheel : Wheel ℕ ℕ
wheel = record {
  interval = second;
  slots = [] ∷ [] ∷ (task ∷ []) ∷ [];
  timer = (9, 2) ∷ [];
  current_pos = 1;
  slot_num = 3;
}

wheel-IsValid : IsValid wheel
wheel-IsValid = record {
  whole_seconds = omega arith;
  some_slot = omega arith;
  all_slots = refl;
  hand_in = omega arith;
}

wheel-IsSafe : IsSafe wheel
unfolding lookup
wheel-IsSafe = record { valid = wheel-IsValid; timers_in = λ key p e. ground (arith, e) }

wheel-IsClear : IsClear 5 wheel
wheel-IsClear zero l e = ground (arith, e)
wheel-IsClear (suc zero) l e = ground (arith, e)
wheel-IsClear (suc (suc zero)) l e = let h : l ≡ task ∷ [] = cc in rw h refl
wheel-IsClear (suc (suc (suc i))) l e = ground (arith, e)

abbrev any : ℕ → ℕ → Bool
any key load = true

due_in_four : due any wheel 4 ≡ 1
due_in_four = refl

tick_counts_down_example :
    (run : List (Task ℕ ℕ)) × (w' : Wheel ℕ ℕ) × (tick_handler wheel ≡ ret (run, w'))
    × IsValid w'
    × (count_chosen any run ≡ due any wheel 0)
    × ((r : ℕ) → due any w' r ≡ due any wheel (suc r))
tick_counts_down_example = tick_counts_down any wheel wheel-IsValid

timer_fires_example :
    (w1 : Wheel ℕ ℕ) × (w2 : Wheel ℕ ℕ) × (run : List (Task ℕ ℕ)) × (w3 : Wheel ℕ ℕ) × (handle
        (add_timer (4 * second) (some 5) 50)
        wheel
      ≡ ret ([], w1))
    × (wait 4 w1 ≡ ret w2)
    × (handle tick w2 ≡ ret (run, w3))
    × (count_chosen any run ≡ 2)
timer_fires_example = timer_fires any wheel (4 * second) 5 50 4 wheel-IsValid (omega arith)

start-IsSafe_example :
    (w : Wheel ℕ ℕ) × (runs : List (List (Task ℕ ℕ))) × (w' : Wheel ℕ ℕ) × (new_time_wheel second 3
        true
      ≡ some w)
    × (handle_all (add_timer (2 * second) (some 5) 50 ∷ tick ∷ remove_timer (some 5) ∷ tick ∷ []) w
        ≡ ret (runs, w'))
    × IsSafe w'
start-IsSafe_example =
    start-IsSafe second 3
      (add_timer (2 * second) (some 5) 50 ∷ tick ∷ remove_timer (some 5) ∷ tick ∷ []) (omega arith)
      (omega arith)

subsecond_panics_example :
    (w : Wheel ℕ ℕ) × (new_time_wheel 500_000_000 3 true ≡ some w)
    × (handle (add_timer second (some 5) 50) w ≡ panic)
subsecond_panics_example =
    subsecond_panics 500_000_000 3 second 5 50 (omega arith) (omega arith) (omega arith)
      (omega arith)

abbrev between : List (Event ℕ ℕ)
between = tick ∷ add_timer second (some 6) 60 ∷ tick ∷ []

abbrev later : List (Event ℕ ℕ)
later = tick ∷ tick ∷ tick ∷ []

removed_never_fires_example :
    (run0 : List (Task ℕ ℕ)) × (w1 : Wheel ℕ ℕ) × (runs : List (List (Task ℕ ℕ))) × (w2 : Wheel ℕ ℕ)
    × (run : List (Task ℕ ℕ)) × (w3 : Wheel ℕ ℕ) × (runs' : List (List (Task ℕ ℕ))) × (w4 : Wheel ℕ
        ℕ)
    × (handle (add_timer (4 * second) (some 5) 50) wheel ≡ ret (run0, w1))
    × (handle_all between w1 ≡ ret (runs, w2))
    × (handle (remove_timer (some 5)) w2 ≡ ret (run, w3))
    × (handle_all later w3 ≡ ret (runs', w4))
    × (count_runs 5 runs' ≡ 0)
removed_never_fires_example =
    removed_never_fires 5 wheel (4 * second) 50 between later wheel-IsSafe wheel-IsClear refl refl
