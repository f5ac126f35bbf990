-- ===== src/ZoneMaster/TimeWheel/Keys.antt =====
-- How many tasks of a list have a key, through the loops of `scanAndRunTask` and `removeTask`.
use baud.Base.{
  ℕ, ◌+◌, ◌-◌, ◌≡◌, ◌≤◌, ◌<◌, refl, some, List, [], ◌∷◌, ◌++◌, ltb, arith, Comparable, ◌==◌, ==_iff,
  if◌then◌else◌,
}
use baud.Base.Assoc.{lookup, remove, lookup-remove}
use baud.ZoneMaster.TimeWheel.{Task, scan_and_run_task, remove_first, has_key}

module _ {K D : Type 0} ⦃keys : Comparable K⦄ (key : K) where
  abbrev pub count_key : List (Task K D) → ℕ
  count_key [] = 0
  count_key (task ∷ l) = (if task.key == key then 1 else 0) + count_key l

  pub count_key-append : (l k : List (Task K D)) → count_key (l ++ k) ≡ count_key l + count_key k
  count_key-append [] k = omega arith
  count_key-append (task ∷ l) k = ground (arith, count_key-append l k)

  pub has_key_iff : (l : List (Task K D)) → has_key key l ≡ ltb 0 (count_key l)
  has_key_iff [] = refl
  has_key_iff (task ∷ l) = ground (arith, has_key_iff l)

  -- The scan adds no timer.
  pub scan-lookup :
      (l : List (Task K D)) (timer : List (K × ℕ)) (p : ℕ)
      → lookup key (scan_and_run_task l timer).2 ≡ some p
      → lookup key timer ≡ some p
  unfolding scan_and_run_task
  scan-lookup [] timer p e = e
  scan-lookup (task ∷ l) timer p e = ground (
    arith,
    scan-lookup l timer p,
    scan-lookup l (remove task.key timer) p,
    lookup-remove task.key key timer,
  )

  -- A key that the slot does not hold keeps its timer.
  pub scan_keeps :
      (l : List (Task K D)) (timer : List (K × ℕ))
      → count_key l ≡ 0
      → lookup key (scan_and_run_task l timer).2 ≡ lookup key timer
  unfolding scan_and_run_task
  scan_keeps [] timer h = refl
  scan_keeps (task ∷ l) timer h = ground (
    arith,
    scan_keeps l timer,
    scan_keeps l (remove task.key timer),
    lookup-remove task.key key timer,
    ==_iff task.key key,
  )

  pub scan-count_key :
      (l : List (Task K D)) (timer : List (K × ℕ))
      → count_key (scan_and_run_task l timer).0 + count_key (scan_and_run_task l timer).1
        ≡ count_key l
  unfolding scan_and_run_task
  scan-count_key [] timer = refl
  scan-count_key (task ∷ l) timer =
      ground (arith, scan-count_key l timer, scan-count_key l (remove task.key timer))

  -- A key that the slot holds once and goes on holding keeps its timer.
  pub scan_keeps_waiting :
      (l : List (Task K D)) (timer : List (K × ℕ))
      → count_key l ≤ 1
      → 0 < count_key (scan_and_run_task l timer).0
      → lookup key (scan_and_run_task l timer).2 ≡ lookup key timer
  unfolding scan_and_run_task
  scan_keeps_waiting [] timer h k = refl
  scan_keeps_waiting (task ∷ l) timer h k = ground (
    arith,
    scan_keeps_waiting l timer,
    scan_keeps_waiting l (remove task.key timer),
    scan_keeps l timer,
    scan-count_key l (remove task.key timer),
    lookup-remove task.key key timer,
    ==_iff task.key key,
  )

  pub remove_first-count_key :
      (l : List (Task K D)) → count_key (remove_first key l) ≡ count_key l - 1
  unfolding remove_first
  remove_first-count_key [] = omega arith
  remove_first-count_key (task ∷ l) = ground (arith, remove_first-count_key l)
