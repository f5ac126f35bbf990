-- ===== src/ZoneMaster/TimeWheel.antt =====
-- zm/time_wheel.go: timers in the slots of a wheel.
-- Durations are nanoseconds. The whole seconds of `Duration.Seconds` are taken as exact, which they
-- are below 2 ^ 24 seconds: its float64 rounds up after that. A list of container/list is a list.
-- The callback is called in a goroutine of its own: a tick returns the tasks that it hands out, in
-- order. After `Stop` there are no more events.
pub mod Count
pub mod Valid
pub mod Moves
pub mod Due
pub mod Fires
pub mod Keys
pub mod Safe
pub mod Tracks
pub mod Cancel
mod Tests
use baud.Base.{
  ℕ, zero, suc, ◌+◌, ◌-◌, ◌/◌, ◌%◌, ◌*◌, Bool, true, false, not, ◌||◌, Option, none, some, List, [],
  ◌∷◌, ◌++◌, ltb, nat_beq, Outcome, ret, panic, Comparable, ◌==◌, get_elem?, set_elem, replicate,
  if◌then◌else◌,
}
use baud.Base.Assoc.{lookup, insert, remove}

pub record Task (K D : Type 0) : Type 0 where
  pub delay : ℕ
  pub circle : ℕ
  pub key : K
  pub load : D

pub record Wheel (K D : Type 0) : Type 0 where
  pub interval : ℕ
  pub slots : List (List (Task K D))
  pub timer : List (K × ℕ)
  pub current_pos : ℕ
  pub slot_num : ℕ

-- What the channels and the ticker of the loop `start` deliver.
pub data Event (K D : Type 0) : Type 0 where
  tick : Event K D
  add_timer : ℕ → Option K → D → Event K D
  remove_timer : Option K → Event K D

abbrev pub second : ℕ
second = 1_000_000_000

module _ {K D : Type 0} where
  -- `none` is nil, the answer to an interval or a number of slots that is not positive, and to a nil
  -- callback; `callback` is whether there is one.
  unfoldable pub new_time_wheel : ℕ → ℕ → Bool → Option (Wheel K D)
  new_time_wheel interval slot_num callback =
      if nat_beq interval 0 || nat_beq slot_num 0 || not callback
      then none
      else some (record {
        interval = interval;
        slots = replicate slot_num [];
        timer = [];
        current_pos = 0;
        slot_num = slot_num;
      })

  -- A division by zero panics. `Seconds()` is a float64, cut to an int: it is taken as the whole seconds,
  -- which it is for delays and intervals below 2 ^ 24 seconds.
  unfoldable pub get_position_and_circle : ℕ → Wheel K D → Outcome (ℕ × ℕ)
  get_position_and_circle d w =
      let intervals = d / second / (w.interval / second) in
      if nat_beq (w.interval / second) 0 || nat_beq w.slot_num 0
      then panic
      else ret ((w.current_pos + intervals) % w.slot_num, intervals / w.slot_num)

  -- `slots[pos].PushBack(task)`; an index out of range panics.
  unfoldable pub push_back :
      ℕ → Task K D → List (List (Task K D)) → Outcome (List (List (Task K D)))
  push_back pos task slots = elim (get_elem? slots pos) [
    | none ↦ panic
    | some l ↦ ret (set_elem slots pos (l ++ (task ∷ [])))
  ]

module _ {K D : Type 0} ⦃keys : Comparable K⦄ where
  abbrev pub add_at : ℕ × ℕ → Task K D → Wheel K D → Outcome (Wheel K D)
  add_at (pos, circle) task w = elim (push_back pos (record task { circle = circle }) w.slots) [
    | panic ↦ panic
    | ret slots ↦ ret (record w { slots = slots; timer = insert task.key pos w.timer })
  ]

  unfoldable pub add_task : Task K D → Wheel K D → Outcome (Wheel K D)
  unfolding get_position_and_circle push_back
  add_task task w = elim (get_position_and_circle task.delay w) [
    | panic ↦ panic
    | ret place ↦ add_at place task w
  ]

  -- The loop of `scanAndRunTask`: what stays in the list, what the callback is given, and the
  -- timers that are left.
  unfoldable pub scan_and_run_task :
      List (Task K D) → List (K × ℕ) → List (Task K D) × List (Task K D) × List (K × ℕ)
  scan_and_run_task [] timer = ([], [], timer)
  scan_and_run_task (task ∷ l) timer =
      if ltb 0 task.circle
      then (let (kept, run, timer') = scan_and_run_task l timer in
          (record task { circle = task.circle - 1 } ∷ kept, run, timer'))
      else (let (kept, run, timer') = scan_and_run_task l (remove task.key timer) in
          (kept, task ∷ run, timer'))

  -- The tasks whose callback runs, and the wheel; an index out of range panics.
  unfoldable pub tick_handler : Wheel K D → Outcome (List (Task K D) × Wheel K D)
  tick_handler w = elim (get_elem? w.slots w.current_pos) [
    | none ↦ panic
    | some l ↦
        let (kept, run, timer) = scan_and_run_task l w.timer in
        ret (
          run,
          record w {
            slots = set_elem w.slots w.current_pos kept;
            timer = timer;
            current_pos = if nat_beq w.current_pos (w.slot_num - 1) then 0 else w.current_pos + 1;
          },
        )
  ]

  -- `l.Remove(e)` clears the links of `e`, so the loop of `removeTask` ends at the first task with
  -- the key.
  unfoldable pub remove_first : K → List (Task K D) → List (Task K D)
  remove_first key [] = []
  remove_first key (task ∷ l) =
      let rest = remove_first key l in if task.key == key then l else task ∷ rest

  abbrev pub has_key : K → List (Task K D) → Bool
  has_key key [] = false
  has_key key (task ∷ l) = if task.key == key then true else has_key key l

  unfoldable pub remove_task : K → Wheel K D → Outcome (Wheel K D)
  unfolding remove_first
  remove_task key w = elim (lookup key w.timer) [
    | none ↦ ret w
    | some position ↦ elim (get_elem? w.slots position) [
      | none ↦ panic
      | some l ↦ ret (record w {
        slots = set_elem w.slots position (remove_first key l);
        timer = if has_key key l then remove key w.timer else w.timer;
      })
    ]
  ]

  -- One round of the loop `start`, with the guards of `AddTimer` and `RemoveTimer`.
  unfoldable pub handle : Event K D → Wheel K D → Outcome (List (Task K D) × Wheel K D)
  unfolding add_task tick_handler remove_task
  handle tick w = tick_handler w
  handle (add_timer delay none load) w = ret ([], w)
  handle (add_timer delay (some key) load) w =
      if nat_beq delay 0
      then ret ([], w)
      else (elim (add_task (record { delay = delay; circle = 0; key = key; load = load }) w) [
        | panic ↦ panic
        | ret w' ↦ ret ([], w')
      ])
  handle (remove_timer none) w = ret ([], w)
  handle (remove_timer (some key)) w = elim (remove_task key w) [
    | panic ↦ panic
    | ret w' ↦ ret ([], w')
  ]
