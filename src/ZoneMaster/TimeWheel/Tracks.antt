-- ===== src/ZoneMaster/TimeWheel/Tracks.antt =====
-- A key that one task at most has, and the timer that names its slot.
use baud.Base.{
  ℕ, zero, suc, ◌≡◌, ◌≢◌, ◌≤◌, ◌<◌, ◌⊎◌, inl, inr, refl, ap, ◌∙◌, Bool, true, false, none, some,
  List, [], ◌∷◌, ◌++◌, arith, Comparable, ◌==◌, ==_iff, set_elem, get_elem?,
}
use baud.Base.Assoc.{lookup, lookup-insert, lookup-remove}
use baud.ZoneMaster.TimeWheel.{
  Task, Wheel, Event, tick, add_timer, remove_timer, scan_and_run_task, remove_first,
}
use baud.ZoneMaster.TimeWheel.Keys.{
  count_key, count_key-append, scan_keeps, scan-count_key, scan_keeps_waiting,
  remove_first-count_key,
}
use baud.ZoneMaster.TimeWheel.Valid.{ticked, slot_of, placed, with_task}
use baud.ZoneMaster.TimeWheel.Safe.{without}

module _ {K D : Type 0} ⦃keys : Comparable K⦄ (key : K) where
  -- No slot holds a task with the key.
  abbrev pub IsClear : Wheel K D → Type 0
  IsClear w = (i : ℕ) (l : List (Task K D)) → get_elem? w.slots i ≡ some l → count_key key l ≡ 0

  -- At most one task has the key, and its timer names the slot.
  abbrev pub Tracks : Wheel K D → Type 0
  Tracks w =
      (i : ℕ) (l : List (Task K D))
      → get_elem? w.slots i ≡ some l
      → (count_key key l ≤ 1) × (0 < count_key key l → lookup key w.timer ≡ some i)

  -- What a slot holds after a write to slot `p`.
  pub get_set :
      (slots : List (List (Task K D))) (p i : ℕ) (l l' x : List (Task K D))
      → get_elem? slots p ≡ some l
      → get_elem? (set_elem slots p l') i ≡ some x
      → ((i ≡ p) × (x ≡ l')) ⊎ ((i ≢ p) × (get_elem? slots i ≡ some x))
  get_set [] p i l l' x e h = absurd (ground (arith, e))
  get_set (y ∷ slots) zero zero l l' x e h = inl (refl, ground (arith, h))
  get_set (y ∷ slots) zero (suc i) l l' x e h = inr (ground arith, h)
  get_set (y ∷ slots) (suc p) zero l l' x e h = inr (ground arith, h)
  get_set (y ∷ slots) (suc p) (suc i) l l' x e h = elim (get_set slots p i l l' x e h) [
    | inl (a, b) ↦ inl (ap suc a, b)
    | inr (a, b) ↦ inr (ground (arith, a), b)
  ]

  pub ticked-Tracks :
      (w : Wheel K D) (l : List (Task K D))
      → get_elem? w.slots w.current_pos ≡ some l
      → Tracks w
      → Tracks (ticked w l)
  ticked-Tracks w l e t i x h =
      elim (get_set w.slots w.current_pos i l (scan_and_run_task l w.timer).0 x e h) [
        | inl (a, b) ↦
            rw (a, b)
              (
                ground (arith, scan-count_key key l w.timer, t w.current_pos l e),
                λ k.
                    scan_keeps_waiting key l w.timer (t w.current_pos l e).0 k
                    ∙ (t w.current_pos l e).1 (ground (arith, k, scan-count_key key l w.timer)),
              )
        | inr (a, b) ↦ (
          (t i x b).0,
          λ k.
              scan_keeps key l w.timer (ground (arith, t i x b, t w.current_pos l e, a, k))
              ∙ (t i x b).1 k,
        )
      ]

  -- The event adds a timer with the key.
  abbrev pub adds_key : Event K D → Bool
  adds_key tick = false
  adds_key (add_timer delay none load) = false
  adds_key (add_timer delay (some other) load) = other == key
  adds_key (remove_timer other) = false

  -- The first task with the key goes: no other slot and no other key is touched.
  remove_first_other :
      (other : K) (l : List (Task K D))
      → other ≢ key
      → count_key key (remove_first other l) ≡ count_key key l
  unfolding remove_first
  remove_first_other other [] ne = refl
  remove_first_other other (task ∷ l) ne =
      ground (arith, remove_first_other other l ne, ==_iff task.key key, ==_iff task.key other, ne)

  pub with_task-Tracks_other :
      (w : Wheel K D) (task : Task K D) (l : List (Task K D))
      → get_elem? w.slots (slot_of task w) ≡ some l
      → (task.key == key) ≡ false
      → Tracks w
      → Tracks (with_task task w l)
  with_task-Tracks_other w task l e ne t i x h =
      let p = slot_of task w in
      let kept = lookup-insert task.key key p w.timer in
      let count = count_key-append key l (placed task w ∷ []) in
      elim (get_set w.slots p i l (l ++ (placed task w ∷ [])) x e h) [
        | inl (a, b) ↦ rw (a, b) (ground (arith, kept, count, ne, t p l e))
        | inr (a, b) ↦ ground (arith, kept, ne, t i x b)
      ]

  pub with_task-Tracks_new :
      (w : Wheel K D) (task : Task K D) (l : List (Task K D))
      → get_elem? w.slots (slot_of task w) ≡ some l
      → (task.key == key) ≡ true
      → IsClear w
      → Tracks (with_task task w l)
  with_task-Tracks_new w task l e same c i x h =
      let p = slot_of task w in
      let kept = lookup-insert task.key key p w.timer in
      let count = count_key-append key l (placed task w ∷ []) in
      elim (get_set w.slots p i l (l ++ (placed task w ∷ [])) x e h) [
        | inl (a, b) ↦ rw (a, b) (ground (arith, kept, count, same, c p l e))
        | inr (a, b) ↦ ground (arith, c i x b)
      ]

  pub without-IsClear :
      (w : Wheel K D) (p : ℕ) (l : List (Task K D))
      → lookup key w.timer ≡ some p
      → get_elem? w.slots p ≡ some l
      → Tracks w
      → IsClear (without key p w l)
  without-IsClear w p l e q t i x h = elim (get_set w.slots p i l (remove_first key l) x q h) [
    | inl (a, b) ↦ rw b (ground (arith, remove_first-count_key key l, t p l q))
    | inr (a, b) ↦ ground (arith, t i x b, a, e)
  ]

  pub without-Tracks_other :
      (other : K) (w : Wheel K D) (p : ℕ) (l : List (Task K D))
      → get_elem? w.slots p ≡ some l
      → other ≢ key
      → Tracks w
      → Tracks (without other p w l)
  without-Tracks_other other w p l q ne t i x h =
      let kept = lookup-remove other key w.timer in
      elim (get_set w.slots p i l (remove_first other l) x q h) [
        | inl (a, b) ↦
            rw (a, b)
              (ground (arith, remove_first_other other l ne, t p l q, kept, ==_iff other key, ne))
        | inr (a, b) ↦ ground (arith, t i x b, kept, ==_iff other key, ne)
      ]

  pub with_task-IsClear :
      (w : Wheel K D) (task : Task K D) (l : List (Task K D))
      → get_elem? w.slots (slot_of task w) ≡ some l
      → (task.key == key) ≡ false
      → IsClear w
      → IsClear (with_task task w l)
  with_task-IsClear w task l e ne c i x h =
      let count = count_key-append key l (placed task w ∷ []) in
      elim (get_set w.slots (slot_of task w) i l (l ++ (placed task w ∷ [])) x e h) [
        | inl (a, b) ↦ rw b (ground (arith, count, ne, c (slot_of task w) l e))
        | inr (a, b) ↦ c i x b
      ]

  remove_first_fewer :
      (other : K) (l : List (Task K D)) → count_key key (remove_first other l) ≤ count_key key l
  unfolding remove_first
  remove_first_fewer other [] = omega arith
  remove_first_fewer other (task ∷ l) = ground (arith, remove_first_fewer other l)

  pub without-IsClear_other :
      (other : K) (w : Wheel K D) (p : ℕ) (l : List (Task K D))
      → get_elem? w.slots p ≡ some l
      → IsClear w
      → IsClear (without other p w l)
  without-IsClear_other other w p l q c i x h =
      elim (get_set w.slots p i l (remove_first other l) x q h) [
        | inl (a, b) ↦ rw b (omega (arith, remove_first_fewer other l, c p l q))
        | inr (a, b) ↦ c i x b
      ]
