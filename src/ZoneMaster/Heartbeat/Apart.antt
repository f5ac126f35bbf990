-- ===== src/ZoneMaster/Heartbeat/Apart.antt =====
-- The events of a partition stand apart in time.
use baud.Base.{
  ℕ, ◌+◌, ◌≡◌, ◌≤◌, ◌<◌, refl, ◌∙◌, true, false, Bool-cases, inl, inr, Option, none, some, List, [],
  ◌∷◌, ◌++◌, ltb, nat_beq, Outcome, ret, panic, Outcome-cases, arith, ◌>>=◌,
}
use mathlib.Core.Path.{subst}
use baud.PartitionServer.Meta.{Replica}
use baud.ZoneMaster.Partition.{
  Partition, PartitionInfo, is_some, has_replica_id, validate_and_update_leader_by_cond,
  count_replicas, take_change_member_task, thirty_seconds,
}
use baud.ZoneMaster.Heartbeat.{
  Handled, ProcessorEvent, pick_leader_replica, delete_a_replica, check_replicas_count,
  handle_known,
}
use baud.ZoneMaster.Heartbeat.Grows.{AllAfter, IsReport, handle_known-After}
use baud.ZoneMaster.Heartbeat.Takes.{Takes, handle_known-Takes}

-- The partition has taken its task, is led, and the time of the task is not over.
abbrev pub IsBusy : ℕ → Partition → Type 0
IsBusy now p =
    (p.task_flag ≡ true) × (now < p.task_timeout + thirty_seconds) × (is_some p.leader ≡ true)

abbrev pub StaysBusy : Partition → Outcome Handled → Type 0
StaysBusy p panic = Unit
StaysBusy p (ret r) =
    (r.1 ≡ [])
    × (r.0.task_flag ≡ true)
    × (r.0.task_timeout ≡ p.task_timeout)
    × (is_some r.0.leader ≡ true)
    × (r.0.epoch.conf_version ≡ p.epoch.conf_version)

refused :
    (now : ℕ) (p : Partition)
    → p.task_flag ≡ true
    → now < p.task_timeout + thirty_seconds
    → (take_change_member_task now p).0 ≡ false
unfolding take_change_member_task
refused now p f b = ground (arith, f, b)

delete_a_replica-Busy :
    (info : PartitionInfo) (node now : ℕ) (p : Partition)
    → IsBusy now p
    → StaysBusy p (delete_a_replica info node now p)
unfolding delete_a_replica
delete_a_replica-Busy info node now p b =
    rw (delete_a_replica, refused now p b.0 b.1) (refl, b.0, refl, b.2, refl)

check_replicas_count-Busy :
    (info : PartitionInfo) (now : ℕ) (p : Partition)
    → IsBusy now p
    → StaysBusy p (check_replicas_count info now p)
unfolding check_replicas_count
check_replicas_count-Busy info now p b = elim (Bool-cases (ltb 1 (count_replicas p))) [
  | inl e ↦ rw (check_replicas_count, e) (delete_a_replica-Busy info _ now p b)
  | inr e ↦ elim (Bool-cases (ltb (count_replicas p) 1)) [
    | inl h ↦ rw (check_replicas_count, e, h, refused now p b.0 b.1) (refl, b.0, refl, b.2, refl)
    | inr h ↦ rw (check_replicas_count, e, h) (refl, b.0, refl, b.2, refl)
  ]
]

validated-Busy :
    (info : PartitionInfo) (leader : Replica) (now : ℕ) (p : Partition)
    → let r = validate_and_update_leader_by_cond info leader now p in
      (r.0.ver_expired ≡ false
        → r.0.illegal ≡ false
        → is_some p.leader ≡ true
        → r.0.update_ok ≡ true)
      × (r.1.task_flag ≡ p.task_flag)
      × (r.1.task_timeout ≡ p.task_timeout)
      × (r.1.epoch.conf_version ≡ p.epoch.conf_version)
      × (is_some p.leader ≡ true → is_some r.1.leader ≡ true)
unfolding validate_and_update_leader_by_cond
validated-Busy info leader now p =
    elim (Bool-cases (nat_beq info.epoch.conf_version p.epoch.conf_version)) [
      | inr e ↦
          rw (validate_and_update_leader_by_cond, e)
            (λ a b c. absurd (ground (arith, a)), refl, refl, refl, λ l. l)
      | inl e ↦ elim (Bool-cases (is_some p.leader)) [
        | inr g ↦
            rw (validate_and_update_leader_by_cond, e, g)
              (
                λ a b c. absurd (ground (arith, c)),
                refl,
                refl,
                refl,
                λ l. absurd (ground (arith, l)),
              )
        | inl g ↦ elim (Bool-cases (has_replica_id leader.id p.replicas)) [
          | inr h ↦
              rw (validate_and_update_leader_by_cond, e, g, h)
                (λ a b c. absurd (ground (arith, b)), refl, refl, refl, λ l. g)
          | inl h ↦
              rw (validate_and_update_leader_by_cond, e, g, h)
                (λ a b c. refl, refl, refl, refl, λ l. refl)
        ]
      ]
    ]

StaysBusy-same :
    (p q : Partition) (o : Outcome Handled)
    → q.task_timeout ≡ p.task_timeout
    → q.epoch.conf_version ≡ p.epoch.conf_version
    → StaysBusy q o
    → StaysBusy p o
StaysBusy-same p q panic a b s = tt
StaysBusy-same p q (ret r) a b s = (s.0, s.1, s.2 ∙ a, s.3, s.4 ∙ b)

handle_known-Busy :
    (info : PartitionInfo) (now : ℕ) (p : Partition)
    → IsBusy now p
    → info.epoch.conf_version ≤ p.epoch.conf_version
    → StaysBusy p (handle_known info now p)
unfolding handle_known
handle_known-Busy info now p b below =
    elim (Bool-cases (ltb info.epoch.conf_version p.epoch.conf_version)) [
      | inl e ↦ rw (handle_known, e) (delete_a_replica-Busy info _ now p b)
      | inr e ↦ elim (Outcome-cases (pick_leader_replica info)) [
        | inl g ↦ rw (handle_known, e, g) tt
        | inr (picked, g) ↦ picks picked g e
      ]
    ]
  where
    picks :
        (picked : Option Replica)
        → pick_leader_replica info ≡ ret picked
        → ltb info.epoch.conf_version p.epoch.conf_version ≡ false
        → StaysBusy p (handle_known info now p)
    picks none g e = rw (handle_known, e, g) (refl, b.0, refl, b.2, refl)
    picks (some leader) g e =
        let r = validate_and_update_leader_by_cond info leader now p in
        let (done, flag, time, version, led) = validated-Busy info leader now p in
        let h : ltb p.epoch.conf_version info.epoch.conf_version ≡ false = ground (arith, below) in
        elim (Bool-cases r.0.ver_expired) [
          | inl k ↦ rw (handle_known, e, g, h, k) (refl, b.0, refl, b.2, refl)
          | inr k ↦ elim (Bool-cases r.0.illegal) [
            | inl m ↦
                rw (handle_known, e, g, h, k, m) (delete_a_replica-Busy info leader.node_id now p b)
            | inr m ↦
                rw (handle_known, e, g, h, k, m, done k m b.2)
                  (StaysBusy-same p r.1 (check_replicas_count info now r.1) time version
                    (check_replicas_count-Busy info now r.1 (flag ∙ b.0, rw time b.1, led b.2)))
          ]
        ]

-- The rounds of one partition.
abbrev pub run_known : List (PartitionInfo × ℕ) → Partition → Outcome Handled
run_known [] p = ret (p, [])
run_known ((info, now) ∷ infos) p =
    handle_known info now p >>= λ r. run_known infos r.0 >>= λ rest. ret (rest.0, r.1 ++ rest.1)

-- Reports from before a time, of a version at most.
abbrev pub AllBefore : ℕ → ℕ → List (PartitionInfo × ℕ) → Type 0
AllBefore time version [] = Unit
AllBefore time version (info ∷ infos) =
    IsReport info.0
    × (info.1 < time)
    × (info.0.epoch.conf_version ≤ version)
    × AllBefore time version infos

busy_run :
    (infos : List (PartitionInfo × ℕ)) (p : Partition)
    → p.task_flag ≡ true
    → is_some p.leader ≡ true
    → AllBefore (p.task_timeout + thirty_seconds) p.epoch.conf_version infos
    → (q : Partition) × (run_known infos p ≡ ret (q, []))
busy_run [] p f l b = (p, refl)
busy_run ((info, now) ∷ infos) p f l (report, time, version, later) =
    let busy = handle_known-Busy info now p (f, time, l) version in
    elim (Outcome-cases (handle_known info now p)) [
      | inl e ↦ absurd (subst (AllAfter p) e (handle_known-After info now p report))
      | inr (r, e) ↦
          let (no_event, flag, timeout, led, same) = subst (StaysBusy p) e busy in
          let (q, g) = busy_run infos r.0 flag led (rw (timeout, same) later) in
          (q, rw (e, g, no_event) refl)
    ]

-- A round in which a partition that then is led gets an event: it is one event only. In the rounds
-- that come in the 30 seconds after it, with reports of no later version, the partition gets none.
pub events_apart :
    (info : PartitionInfo) (now : ℕ) (p q : Partition) (event : ProcessorEvent)
    (events : List ProcessorEvent) (infos : List (PartitionInfo × ℕ))
    → handle_known info now p ≡ ret (q, event ∷ events)
    → is_some q.leader ≡ true
    → AllBefore (now + thirty_seconds) q.epoch.conf_version infos
    → (events ≡ []) × ((last : Partition) × (run_known infos q ≡ ret (last, [])))
events_apart info now p q event [] infos h l b =
    let (flag, time) : Takes now (ret (q, event ∷ [])) =
      subst (Takes now) h (handle_known-Takes info now p) in
    (refl, busy_run infos q flag l (rw time b))
events_apart info now p q event (other ∷ events) infos h l b =
    absurd (subst (Takes now) h (handle_known-Takes info now p))
