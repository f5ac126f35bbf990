-- ===== src/ZoneMaster/Heartbeat/Takes.antt =====
-- An event comes with the task of its partition.
use baud.Base.{
  ℕ, ◌≡◌, true, false, not, ◌||◌, Bool-cases, inl, inr, Option, none, some, [], ◌∷◌, ltb, Outcome,
  ret, panic, Outcome-cases, arith,
}
use baud.PartitionServer.Meta.{Replica}
use baud.ZoneMaster.Partition.{
  Partition, PartitionInfo, update_replica_group_by_cond, validate_and_update_leader_by_cond,
  count_replicas, take_change_member_task,
}
use baud.ZoneMaster.Heartbeat.{
  Handled, pick_leader_replica, pick_replica_to_delete, delete_a_replica, delete_event,
  check_replicas_count, update_group, handle_known,
}

-- No event, or one by which the partition took its task at a time.
abbrev pub Takes : ℕ → Outcome Handled → Type 0
Takes now panic = Unit
Takes now (ret (q, [])) = Unit
Takes now (ret (q, event ∷ [])) = (q.task_flag ≡ true) × (q.task_timeout ≡ now)
Takes now (ret (q, event ∷ other ∷ events)) = ⊥

taken :
    (now : ℕ) (p : Partition)
    → (take_change_member_task now p).0 ≡ true
    → ((take_change_member_task now p).1.task_flag ≡ true)
      × ((take_change_member_task now p).1.task_timeout ≡ now)
unfolding take_change_member_task
taken now p h = ground (arith, h)

Takes-delete_event :
    (now id node : ℕ) (q : Partition) (r : Option Replica)
    → (q.task_flag ≡ true) × (q.task_timeout ≡ now)
    → Takes now (ret (q, delete_event id node r))
Takes-delete_event now id node q none h = tt
Takes-delete_event now id node q (some r) h = h

delete_a_replica-Takes :
    (info : PartitionInfo) (node now : ℕ) (p : Partition)
    → Takes now (delete_a_replica info node now p)
unfolding delete_a_replica
delete_a_replica-Takes info node now p = elim (Bool-cases (take_change_member_task now p).0) [
  | inl e ↦ elim (Outcome-cases (pick_replica_to_delete info)) [
    | inl h ↦ rw (delete_a_replica, e, h) tt
    | inr (r, h) ↦
        rw (delete_a_replica, e, h)
          (Takes-delete_event now info.id node (take_change_member_task now p).1 r (taken now p e))
  ]
  | inr e ↦ rw (delete_a_replica, e) tt
]

check_replicas_count-Takes :
    (info : PartitionInfo) (now : ℕ) (p : Partition) → Takes now (check_replicas_count info now p)
unfolding check_replicas_count
check_replicas_count-Takes info now p = elim (Bool-cases (ltb 1 (count_replicas p))) [
  | inl e ↦ rw (check_replicas_count, e) (delete_a_replica-Takes info _ now p)
  | inr e ↦ elim (Bool-cases (ltb (count_replicas p) 1)) [
    | inl h ↦ elim (Bool-cases (take_change_member_task now p).0) [
      | inl k ↦ rw (check_replicas_count, e, h, k) (taken now p k)
      | inr k ↦ rw (check_replicas_count, e, h, k) tt
    ]
    | inr h ↦ rw (check_replicas_count, e, h) tt
  ]
]

update_group-Takes :
    (info : PartitionInfo) (leader : Replica) (now : ℕ) (p : Partition)
    → Takes now (update_group info leader now p)
unfolding update_group
update_group-Takes info leader now p =
    elim (Outcome-cases (update_replica_group_by_cond info leader now p)) [
      | inl e ↦ rw (update_group, e) tt
      | inr (r, e) ↦ elim (Bool-cases (r.0.ver_expired || not r.0.update_ok)) [
        | inl h ↦ rw (update_group, e, h) tt
        | inr h ↦ rw (update_group, e, h) (check_replicas_count-Takes info now r.1)
      ]
    ]

pub handle_known-Takes :
    (info : PartitionInfo) (now : ℕ) (p : Partition) → Takes now (handle_known info now p)
unfolding handle_known
handle_known-Takes info now p =
    elim (Bool-cases (ltb info.epoch.conf_version p.epoch.conf_version)) [
      | inl e ↦ rw (handle_known, e) (delete_a_replica-Takes info _ now p)
      | inr e ↦ elim (Outcome-cases (pick_leader_replica info)) [
        | inl g ↦ rw (handle_known, e, g) tt
        | inr (picked, g) ↦ picks picked g e
      ]
    ]
  where
    picks :
        (picked : Option Replica)
        → pick_leader_replica info ≡ ret picked
        → ltb info.epoch.conf_version p.epoch.conf_version ≡ false
        → Takes now (handle_known info now p)
    picks none g e = rw (handle_known, e, g) tt
    picks (some leader) g e =
        let r = validate_and_update_leader_by_cond info leader now p in
        elim (Bool-cases (ltb p.epoch.conf_version info.epoch.conf_version)) [
          | inl h ↦ rw (handle_known, e, g, h) (update_group-Takes info leader now p)
          | inr h ↦ elim (Bool-cases r.0.ver_expired) [
            | inl k ↦ rw (handle_known, e, g, h, k) tt
            | inr k ↦ elim (Bool-cases r.0.illegal) [
              | inl m ↦
                  rw (handle_known, e, g, h, k, m)
                    (delete_a_replica-Takes info leader.node_id now p)
              | inr m ↦ elim (Bool-cases r.0.update_ok) [
                | inl n ↦
                    rw (handle_known, e, g, h, k, m, n) (check_replicas_count-Takes info now r.1)
                | inr n ↦ rw (handle_known, e, g, h, k, m, n) (update_group-Takes info leader now p)
              ]
            ]
          ]
        ]
