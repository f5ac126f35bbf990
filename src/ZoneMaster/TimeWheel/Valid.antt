-- ===== src/ZoneMaster/TimeWheel/Valid.antt =====
-- Valid wheels, and the wheels that a tick and an added task leave.
use baud.Base.{
  ℕ, zero, suc, ◌+◌, ◌-◌, ◌/◌, ◌%◌, ◌≡◌, ◌<◌, refl, ◌∙◌, false, some, List, [], ◌∷◌, ◌++◌, nat_beq,
  arith, Comparable, length, get_elem?, set_elem, length-set_elem, ret, if◌then◌else◌,
}
use native.Mathlib.Nat.{mod-lt}
use baud.Base.Assoc.{insert}
use baud.ZoneMaster.TimeWheel.{
  Task, Wheel, second, scan_and_run_task, tick_handler, get_position_and_circle, push_back,
  add_task, add_at,
}

-- The slot after the one under the hand.
abbrev pub advance : ℕ → ℕ → ℕ
advance n cur = if nat_beq cur (n - 1) then 0 else cur + 1

-- A wheel as `NewTimeWheel` makes it from an interval of at least a second, and as every call
-- leaves it.
pub record IsValid {K D : Type 0} (w : Wheel K D) : Type 0 where
  pub whole_seconds : 0 < w.interval / second
  pub some_slot : 0 < w.slot_num
  pub all_slots : length w.slots ≡ w.slot_num
  pub hand_in : w.current_pos < w.slot_num

pub get_elem?_in {ℓ} :
    {A : Type ℓ} (xs : List A) (i : ℕ) → i < length xs → (x : A) × (get_elem? xs i ≡ some x)
get_elem?_in [] i h = absurd (omega arith)
get_elem?_in (x ∷ xs) zero h = (x, refl)
get_elem?_in (x ∷ xs) (suc i) h = get_elem?_in xs i (omega arith)

module _ {K D : Type 0} ⦃keys : Comparable K⦄ where
  -- The wheel after a tick when the slot under the hand holds `l`.
  abbrev pub ticked : Wheel K D → List (Task K D) → Wheel K D
  ticked w l = record w {
    slots = set_elem w.slots w.current_pos (scan_and_run_task l w.timer).0;
    timer = (scan_and_run_task l w.timer).2;
    current_pos = advance w.slot_num w.current_pos;
  }

  pub tick_handler_at :
      (w : Wheel K D) (l : List (Task K D))
      → get_elem? w.slots w.current_pos ≡ some l
      → tick_handler w ≡ ret ((scan_and_run_task l w.timer).1, ticked w l)
  unfolding tick_handler
  tick_handler_at w l e = rw (e, tick_handler) refl

  pub ticked-IsValid : (w : Wheel K D) (l : List (Task K D)) → IsValid w → IsValid (ticked w l)
  ticked-IsValid w l v = record {
    whole_seconds = v.whole_seconds;
    some_slot = v.some_slot;
    all_slots = length-set_elem w.slots w.current_pos (scan_and_run_task l w.timer).0 ∙ v.all_slots;
    hand_in = ground (arith, v.hand_in);
  }

  -- The slot for a task.
  abbrev pub slot_of : Task K D → Wheel K D → ℕ
  slot_of task w = (w.current_pos + task.delay / second / (w.interval / second)) % w.slot_num

  abbrev pub placed : Task K D → Wheel K D → Task K D
  placed task w = record task { circle = task.delay / second / (w.interval / second) / w.slot_num }

  -- The wheel with a task in its slot, which holds `l`.
  abbrev pub with_task : Task K D → Wheel K D → List (Task K D) → Wheel K D
  with_task task w l = record w {
    slots = set_elem w.slots (slot_of task w) (l ++ (placed task w ∷ []));
    timer = insert task.key (slot_of task w) w.timer;
  }

  pub add_task_at :
      (w : Wheel K D) (task : Task K D) (l : List (Task K D))
      → IsValid w
      → get_elem? w.slots (slot_of task w) ≡ some l
      → add_task task w ≡ ret (with_task task w l)
  unfolding add_task get_position_and_circle push_back
  add_task_at w task l v e =
      let a : nat_beq (w.interval / second) 0 ≡ false = ground (arith, v.whole_seconds) in
      let b : nat_beq w.slot_num 0 ≡ false = ground (arith, v.some_slot) in
      rw (a, b, get_position_and_circle, add_task, add_at, push_back, e) refl

  pub with_task-IsValid :
      (w : Wheel K D) (task : Task K D) (l : List (Task K D))
      → IsValid w
      → IsValid (with_task task w l)
  with_task-IsValid w task l v = record {
    whole_seconds = v.whole_seconds;
    some_slot = v.some_slot;
    all_slots = length-set_elem w.slots (slot_of task w) (l ++ (placed task w ∷ [])) ∙ v.all_slots;
    hand_in = v.hand_in;
  }

  pub slot_under_hand :
      (w : Wheel K D)
      → IsValid w
      → (l : List (Task K D)) × (get_elem? w.slots w.current_pos ≡ some l)
  slot_under_hand w v = get_elem?_in w.slots w.current_pos (omega (arith, v.all_slots, v.hand_in))

  pub slot_for :
      (w : Wheel K D) (task : Task K D)
      → IsValid w
      → (l : List (Task K D)) × (get_elem? w.slots (slot_of task w) ≡ some l)
  slot_for w task v =
      let k = task.delay / second / (w.interval / second) in
      let small : slot_of task w < w.slot_num = mod-lt (w.current_pos + k) v.some_slot in
      get_elem?_in w.slots (slot_of task w) (omega (arith, v.all_slots, small))
