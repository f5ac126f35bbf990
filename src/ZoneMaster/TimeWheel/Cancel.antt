-- ===== src/ZoneMaster/TimeWheel/Cancel.antt =====
-- `RemoveTimer` after `AddTimer`, with any events between them that do not add the same key.
use baud.Base.{
  ℕ, ◌+◌, ◌≡◌, inl, inr, refl, sym, Bool, true, false, Bool-cases, some, List, [], ◌∷◌, arith,
  Comparable, ◌==◌, ==_iff, ==_refl, ret, if◌then◌else◌,
}
use mathlib.Core.Path.{subst}
use baud.Base.Assoc.{lookup}
use baud.ZoneMaster.TimeWheel.{
  Task, Wheel, Event, add_timer, remove_timer, scan_and_run_task, handle,
}
use baud.ZoneMaster.TimeWheel.Keys.{count_key, scan-count_key}
use baud.ZoneMaster.TimeWheel.Safe.{
  IsSafe, Handled, ticking, no_add, adding, no_key, no_timer, removing, handle-Handled,
  Handled-IsSafe, handle_all, new_task, without,
}
use baud.ZoneMaster.TimeWheel.Tracks.{
  IsClear, Tracks, get_set, adds_key, ticked-Tracks, with_task-Tracks_other, with_task-Tracks_new,
  without-IsClear, without-Tracks_other, with_task-IsClear, without-IsClear_other,
}

module _ {K D : Type 0} ⦃keys : Comparable K⦄ (key : K) where
  clear-Tracks : (w : Wheel K D) → IsClear key w → Tracks key w
  clear-Tracks w c i l e = ground (arith, c i l e)

  Handled-Tracks :
      (event : Event K D) (w w' : Wheel K D) (run : List (Task K D))
      → Handled w event run w'
      → adds_key key event ≡ false
      → Tracks key w
      → Tracks key w'
  Handled-Tracks _ w _ _ (ticking l e) a t = ticked-Tracks key w l e t
  Handled-Tracks _ w _ _ (no_add delay other load) a t = t
  Handled-Tracks _ w _ _ (adding delay other load l e) a t =
      with_task-Tracks_other key w (new_task delay other load) l e a t
  Handled-Tracks _ w _ _ no_key a t = t
  Handled-Tracks _ w _ _ (no_timer other e) a t = t
  Handled-Tracks _ w _ _ (removing other p l e q) a t = elim (Bool-cases (other == key)) [
    | inl same ↦
        let h : other ≡ key = (==_iff other key).0 same in
        subst (λ k. Tracks key (without k p w l)) (sym h)
          (clear-Tracks (without key p w l)
            (without-IsClear key w p l (subst (λ k. lookup k w.timer ≡ some p) h e) q t))
    | inr differ ↦
        without-Tracks_other key other w p l q (ground (arith, differ, ==_iff other key)) t
  ]

  -- Adding a key that no slot holds.
  Handled-Tracks_added :
      (delay : ℕ) (load : D) (w w' : Wheel K D) (run : List (Task K D))
      → Handled w (add_timer delay (some key) load) run w'
      → IsClear key w
      → Tracks key w'
  Handled-Tracks_added _ _ w _ _ (no_add delay other load) c = clear-Tracks w c
  Handled-Tracks_added _ _ w _ _ (adding delay other load l e) c =
      with_task-Tracks_new other w (new_task delay other load) l e (==_refl other) c

  -- Removing a key that one task at most has.
  Handled-IsClear_removed :
      (w w' : Wheel K D) (run : List (Task K D))
      → Handled w (remove_timer (some key)) run w'
      → Tracks key w
      → IsClear key w'
  Handled-IsClear_removed w _ _ (no_timer other e) t = λ i l h. ground (arith, t i l h, e)
  Handled-IsClear_removed w _ _ (removing other p l e q) t = without-IsClear other w p l e q t

  -- No event but the adding of the key hands out or brings in a task with a key that no slot holds.
  Handled-IsClear :
      (event : Event K D) (w w' : Wheel K D) (run : List (Task K D))
      → Handled w event run w'
      → adds_key key event ≡ false
      → IsClear key w
      → IsClear key w' × (count_key key run ≡ 0)
  Handled-IsClear _ w _ _ (ticking l e) a c =
      let counts = scan-count_key key l w.timer in
      (
        λ i x h.
            elim (get_set key w.slots w.current_pos i l (scan_and_run_task l w.timer).0 x e h) [
              | inl (p, q) ↦ rw q (omega (arith, counts, c w.current_pos l e))
              | inr (p, q) ↦ c i x q
            ],
        omega (arith, counts, c w.current_pos l e),
      )
  Handled-IsClear _ w _ _ (no_add delay other load) a c = (c, refl)
  Handled-IsClear _ w _ _ (adding delay other load l e) a c =
      (with_task-IsClear key w (new_task delay other load) l e a c, refl)
  Handled-IsClear _ w _ _ no_key a c = (c, refl)
  Handled-IsClear _ w _ _ (no_timer other e) a c = (c, refl)
  Handled-IsClear _ w _ _ (removing other p l e q) a c =
      (without-IsClear_other key other w p l q c, refl)

  -- No event of the list adds a timer with the key.
  abbrev pub adds_none : List (Event K D) → Bool
  adds_none [] = true
  adds_none (event ∷ events) = if adds_key key event then false else adds_none events

  -- The tasks with the key that the events of a run hand out.
  abbrev pub count_runs : List (List (Task K D)) → ℕ
  count_runs [] = 0
  count_runs (run ∷ runs) = count_key key run + count_runs runs

  handle_all-Tracks :
      (events : List (Event K D)) (w : Wheel K D)
      → IsSafe w
      → Tracks key w
      → adds_none events ≡ true
      → (runs : List (List (Task K D))) × (w' : Wheel K D) × (handle_all events w ≡ ret (runs, w'))
        × IsSafe w'
        × Tracks key w'
  handle_all-Tracks [] w s t a = ([], w, refl, s, t)
  handle_all-Tracks (event ∷ events) w s t a =
      let (run, w1, e1, h) = handle-Handled event w s in
      let t1 = Handled-Tracks event w w1 run h (ground (arith, a)) t in
      let (runs, w2, e2, s2, t2) =
        handle_all-Tracks events w1 (Handled-IsSafe event w w1 run h s) t1 (ground (arith, a)) in
      (run ∷ runs, w2, rw (handle_all, e1, e2) refl, s2, t2)

  handle_all-IsClear :
      (events : List (Event K D)) (w : Wheel K D)
      → IsSafe w
      → IsClear key w
      → adds_none events ≡ true
      → (runs : List (List (Task K D))) × (w' : Wheel K D) × (handle_all events w ≡ ret (runs, w'))
        × (count_runs runs ≡ 0)
  handle_all-IsClear [] w s c a = ([], w, refl, refl)
  handle_all-IsClear (event ∷ events) w s c a =
      let (run, w1, e1, h) = handle-Handled event w s in
      let (c1, none_run) = Handled-IsClear event w w1 run h (ground (arith, a)) c in
      let (runs, w2, e2, z) =
        handle_all-IsClear events w1 (Handled-IsSafe event w w1 run h s) c1 (ground (arith, a)) in
      (run ∷ runs, w2, rw (handle_all, e1, e2) refl, omega (arith, none_run, z))

  -- On a wheel whose timers point at its slots, of which no slot holds the key: a timer is added
  -- under the key, any events follow that do not add the key again, the key is removed, and any
  -- events follow that do not add it. Nothing panics, and the events after the removal never hand out
  -- a task with the key.
  pub removed_never_fires :
      (w : Wheel K D) (delay : ℕ) (load : D) (events later : List (Event K D))
      → IsSafe w
      → IsClear key w
      → adds_none events ≡ true
      → adds_none later ≡ true
      → (run0 : List (Task K D)) × (w1 : Wheel K D) × (runs : List (List (Task K D))) × (w2 : Wheel
          K D)
        × (run : List (Task K D)) × (w3 : Wheel K D) × (runs' : List (List (Task K D)))
        × (w4 : Wheel K D) × (handle (add_timer delay (some key) load) w ≡ ret (run0, w1))
        × (handle_all events w1 ≡ ret (runs, w2))
        × (handle (remove_timer (some key)) w2 ≡ ret (run, w3))
        × (handle_all later w3 ≡ ret (runs', w4))
        × (count_runs runs' ≡ 0)
  removed_never_fires w delay load events later s c a b =
      let (run0, w1, e1, h1) = handle-Handled (add_timer delay (some key) load) w s in
      let s1 = Handled-IsSafe _ w w1 run0 h1 s in
      let (runs, w2, e2, s2, t2) =
        handle_all-Tracks events w1 s1 (Handled-Tracks_added delay load w w1 run0 h1 c) a in
      let (run, w3, e3, h3) = handle-Handled (remove_timer (some key)) w2 s2 in
      let (runs', w4, e4, z) =
        handle_all-IsClear later w3 (Handled-IsSafe _ w2 w3 run h3 s2)
          (Handled-IsClear_removed w2 w3 run h3 t2) b in
      (run0, w1, runs, w2, run, w3, runs', w4, e1, e2, e3, e4, z)
