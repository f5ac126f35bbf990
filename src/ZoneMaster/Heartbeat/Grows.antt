-- ===== src/ZoneMaster/Heartbeat/Grows.antt =====
-- What a heartbeat leaves of a partition.
use baud.Base.{
  ℕ, ◌+◌, ◌≡◌, ◌≢◌, ◌≤◌, ◌⊎◌, refl, ap, sym, ◌∙◌, true, false, not, ◌&&◌, ◌||◌, Bool-cases, inl,
  inr, Option, none, some, Option-cases, ◌∷◌, ltb, leb, nat_beq, nat_eq, Outcome, ret, panic, arith,
}
use baud.PartitionServer.Meta.{Replica}
use baud.ZoneMaster.Partition.{
  Partition, PartitionInfo, RaftStatus, is_some, has_replica_id, update_replica_group_by_cond,
  validate_and_update_leader_by_cond, count_replicas, take_change_member_task, thirty_seconds,
}
use baud.ZoneMaster.Heartbeat.{
  Handled, other_follower, pick_leader_replica, pick_replica_to_delete, delete_a_replica,
  check_replicas_count, update_group, handle_known,
}

-- The leader is one of the replicas.
abbrev pub IsLed : Partition → Type 0
IsLed p = (r : Replica) → p.leader ≡ some r → has_replica_id r.id p.replicas ≡ true

-- The second partition comes after the first.
abbrev pub Grows : Partition → Partition → Type 0
Grows p q =
    (p.epoch.conf_version ≤ q.epoch.conf_version)
    × (q.start_slot ≡ p.start_slot)
    × (q.end_slot ≡ p.end_slot)
    × (IsLed p → IsLed q)

pub Grows-refl : (p : Partition) → Grows p p
Grows-refl p = (omega arith, refl, refl, λ l. l)

pub Grows-trans : (p q r : Partition) → Grows p q → Grows q r → Grows p r
Grows-trans p q r g h = (omega (arith, g.0, h.0), h.1 ∙ g.1, h.2 ∙ g.2, λ l. h.3 (g.3 l))

abbrev pub AllAfter : Partition → Outcome Handled → Type 0
AllAfter p panic = ⊥
AllAfter p (ret r) = Grows p r.0

-- What a partition server says of a partition: there is a raft status when it leads it, and only then.
abbrev pub IsReport : PartitionInfo → Type 0
IsReport info =
    (info.is_leader ≡ true × ((raft : RaftStatus) × (info.raft_status ≡ some raft)))
    ⊎ ((info.is_leader ≡ false) × (info.raft_status ≡ none))

pick_leader_replica-returns :
    (info : PartitionInfo)
    → IsReport info
    → (picked : Option Replica) × (pick_leader_replica info ≡ ret picked)
unfolding pick_leader_replica
pick_leader_replica-returns info (inl (e, (raft, g))) =
    (some raft.replica, rw (pick_leader_replica, e, g) refl)
pick_leader_replica-returns info (inr (e, g)) = (none, rw (pick_leader_replica, e) refl)

pub pick_replica_to_delete-returns :
    (info : PartitionInfo)
    → IsReport info
    → (picked : Option Replica) × (pick_replica_to_delete info ≡ ret picked)
unfolding pick_replica_to_delete
pick_replica_to_delete-returns info (inr (e, g)) = (none, rw (pick_replica_to_delete, g) refl)
pick_replica_to_delete-returns info (inl (e, (raft, g))) =
    elim (Option-cases (other_follower raft.replica.id raft.followers)) [
      | inl h ↦ (some raft.replica, rw (pick_replica_to_delete, g, e, h) refl)
      | inr (f, h) ↦ (some f, rw (pick_replica_to_delete, g, e, h) refl)
    ]

take_change_member_task-Grows :
    (now : ℕ) (p : Partition) → Grows p (take_change_member_task now p).1
unfolding take_change_member_task
take_change_member_task-Grows now p =
    elim (Bool-cases (not p.task_flag || leb (p.task_timeout + thirty_seconds) now)) [
      | inl e ↦ rw (take_change_member_task, e) (omega arith, refl, refl, λ l. l)
      | inr e ↦ rw (take_change_member_task, e) (Grows-refl p)
    ]

delete_a_replica-After :
    (info : PartitionInfo) (node now : ℕ) (p q : Partition)
    → IsReport info
    → Grows p q
    → AllAfter p (delete_a_replica info node now q)
unfolding delete_a_replica
delete_a_replica-After info node now p q report g =
    let task = take_change_member_task now q in
    let later = Grows-trans p q task.1 g (take_change_member_task-Grows now q) in
    elim (Bool-cases task.0) [
      | inl e ↦
          let (r, h) = pick_replica_to_delete-returns info report in
          rw (delete_a_replica, e, h) later
      | inr e ↦ rw (delete_a_replica, e) g
    ]

check_replicas_count-After :
    (info : PartitionInfo) (now : ℕ) (p q : Partition)
    → IsReport info
    → Grows p q
    → AllAfter p (check_replicas_count info now q)
unfolding check_replicas_count
check_replicas_count-After info now p q report g =
    let task = take_change_member_task now q in
    let later = Grows-trans p q task.1 g (take_change_member_task-Grows now q) in
    elim (Bool-cases (ltb 1 (count_replicas q))) [
      | inl e ↦ rw (check_replicas_count, e) (delete_a_replica-After info _ now p q report g)
      | inr e ↦ elim (Bool-cases (ltb (count_replicas q) 1)) [
        | inl h ↦ elim (Bool-cases task.0) [
          | inl k ↦ rw (check_replicas_count, e, h, k) later
          | inr k ↦ rw (check_replicas_count, e, h, k) g
        ]
        | inr h ↦ rw (check_replicas_count, e, h) g
      ]
    ]

-- The leader that is picked is the first of the replicas that the leader reports.
pick_leader_replica-first :
    (info : PartitionInfo) (leader : Replica) (raft : RaftStatus)
    → pick_leader_replica info ≡ ret (some leader)
    → info.raft_status ≡ some raft
    → raft.replica ≡ leader
unfolding pick_leader_replica
pick_leader_replica-first info leader raft h e = ground (arith, h, e)

pick_leader_replica-raft :
    (info : PartitionInfo) (leader : Replica)
    → pick_leader_replica info ≡ ret (some leader)
    → info.raft_status ≢ none
unfolding pick_leader_replica
pick_leader_replica-raft info leader h e = ground (arith, h, e)

unwrap : (a b : Replica) → some a ≡ some b → a ≡ b
unwrap a b h = cc

-- The partition after the update of its group.
abbrev updated : PartitionInfo → RaftStatus → Replica → ℕ → Partition → Partition
updated info raft leader now p = record p {
  epoch = info.epoch;
  status = info.status;
  replicas = raft.replica ∷ raft.followers;
  task_flag = false;
  task_timeout = 0;
  last_heartbeat = now;
  leader = some leader;
}

update_group-After :
    (info : PartitionInfo) (leader : Replica) (now : ℕ) (p : Partition)
    → IsReport info
    → pick_leader_replica info ≡ ret (some leader)
    → AllAfter p (update_group info leader now p)
unfolding update_group update_replica_group_by_cond
update_group-After info leader now p report h =
    let old = info.epoch.conf_version in
    let known = p.epoch.conf_version in
    elim (Bool-cases (ltb old known || (nat_beq old known && is_some p.leader))) [
      | inl e ↦ rw (update_group, update_replica_group_by_cond, e) (Grows-refl p)
      | inr e ↦ elim (Option-cases info.raft_status) [
        | inl g ↦ absurd (pick_leader_replica-raft info leader h g)
        | inr (raft, g) ↦
            let first = pick_leader_replica-first info leader raft h g in
            let grows : Grows p (updated info raft leader now p) = (
              ground (arith, e),
              refl,
              refl,
              λ l r k. ground (arith, ap (λ (x : Replica). x.id) (first ∙ unwrap leader r k)),
            ) in
            rw (update_group, update_replica_group_by_cond, e, g)
              (check_replicas_count-After (record info { raft_status = some raft }) now p
                (updated info raft leader now p) (rw (sym g) report) grows)
      ]
    ]

validate-Grows :
    (info : PartitionInfo) (leader : Replica) (now : ℕ) (p : Partition)
    → Grows p (validate_and_update_leader_by_cond info leader now p).1
unfolding validate_and_update_leader_by_cond
validate-Grows info leader now p =
    elim (Bool-cases (nat_beq info.epoch.conf_version p.epoch.conf_version)) [
      | inr e ↦ rw (validate_and_update_leader_by_cond, e) (Grows-refl p)
      | inl e ↦ elim (Bool-cases (is_some p.leader)) [
        | inr g ↦ rw (validate_and_update_leader_by_cond, e, g) (Grows-refl p)
        | inl g ↦ elim (Bool-cases (has_replica_id leader.id p.replicas)) [
          | inr h ↦ rw (validate_and_update_leader_by_cond, e, g, h) (Grows-refl p)
          | inl h ↦
              rw (validate_and_update_leader_by_cond, e, g, h)
                (omega arith, refl, refl, λ l r k. rw (sym (unwrap leader r k)) h)
        ]
      ]
    ]

pub handle_known-After :
    (info : PartitionInfo) (now : ℕ) (p : Partition)
    → IsReport info
    → AllAfter p (handle_known info now p)
unfolding handle_known
handle_known-After info now p report =
    elim (Bool-cases (ltb info.epoch.conf_version p.epoch.conf_version)) [
      | inl e ↦ rw (handle_known, e) (delete_a_replica-After info _ now p p report (Grows-refl p))
      | inr e ↦ let (picked, g) = pick_leader_replica-returns info report in picks picked g e
    ]
  where
    picks :
        (picked : Option Replica)
        → pick_leader_replica info ≡ ret picked
        → ltb info.epoch.conf_version p.epoch.conf_version ≡ false
        → AllAfter p (handle_known info now p)
    picks none g e = rw (handle_known, e, g) (Grows-refl p)
    picks (some leader) g e =
        let r = validate_and_update_leader_by_cond info leader now p in
        elim (Bool-cases (ltb p.epoch.conf_version info.epoch.conf_version)) [
          | inl h ↦ rw (handle_known, e, g, h) (update_group-After info leader now p report g)
          | inr h ↦ elim (Bool-cases r.0.ver_expired) [
            | inl k ↦ rw (handle_known, e, g, h, k) (Grows-refl p)
            | inr k ↦ elim (Bool-cases r.0.illegal) [
              | inl m ↦
                  rw (handle_known, e, g, h, k, m)
                    (delete_a_replica-After info leader.node_id now p p report (Grows-refl p))
              | inr m ↦ elim (Bool-cases r.0.update_ok) [
                | inl n ↦
                    rw (handle_known, e, g, h, k, m, n)
                      (check_replicas_count-After info now p r.1 report
                        (validate-Grows info leader now p))
                | inr n ↦
                    rw (handle_known, e, g, h, k, m, n)
                      (update_group-After info leader now p report g)
              ]
            ]
          ]
        ]
