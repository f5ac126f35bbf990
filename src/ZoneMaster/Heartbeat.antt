-- ===== src/ZoneMaster/Heartbeat.antt =====
-- zm/rpc_server.go: `PSHeartbeat`, which takes what a partition server says of its partitions.
-- The events go to the processors in order; that one is dropped when the channel of the processors is
-- full is left to them. The partitions are `PartitionCache` of zm/partition.go.
pub mod Grows
pub mod AllGrow
pub mod Takes
pub mod Apart
mod Tests
use baud.Base.{
  ℕ, ◌+◌, Bool, true, false, not, ◌&&◌, ◌||◌, Option, none, some, List, [], ◌∷◌, ◌++◌, ltb, leb,
  nat_beq, nat_eq, Outcome, ret, panic, length, if◌then◌else◌, ◌>>=◌,
}
use baud.Base.Assoc.{lookup, insert, remove}
use baud.PartitionServer.Meta.{Replica, Epoch}
use baud.ZoneMaster.Partition.{
  Partition, PartitionInfo, RaftStatus, GroupUpdate, LeaderUpdate, update_replica_group_by_cond,
  validate_and_update_leader_by_cond, count_replicas, pick_leader_node_id, take_change_member_task,
}

-- A partition to create has one more replica to get; a replica to delete goes at a node.
pub data ProcessorEvent : Type 0 where
  force_partition_delete_event : ℕ → Replica → ProcessorEvent
  partition_delete_event : ℕ → ℕ → Replica → ProcessorEvent
  partition_create_event : ℕ → ProcessorEvent

abbrev pub fixed_replica_num : ℕ
fixed_replica_num = 1

-- The address of the replica of a nil raft status panics.
unfoldable pub pick_leader_replica : PartitionInfo → Outcome (Option Replica)
pick_leader_replica info =
    if not info.is_leader
    then ret none
    else elim info.raft_status [ none ↦ panic | some raft ↦ ret (some raft.replica) ]

abbrev pub other_follower : ℕ → List Replica → Option Replica
other_follower id [] = none
other_follower id (f ∷ followers) = if nat_beq f.id id then other_follower id followers else some f

unfoldable pub pick_replica_to_delete : PartitionInfo → Outcome (Option Replica)
pick_replica_to_delete info = elim info.raft_status [
  | none ↦ ret none
  | some raft ↦
      if not info.is_leader
      then elim raft.followers [ [] ↦ panic | f ∷ _ ↦ ret (some f) ]
      else elim (other_follower raft.replica.id raft.followers) [
        | none ↦ ret (some raft.replica)
        | some f ↦ ret (some f)
      ]
]

-- A partition and the events for the processors.
abbrev pub Handled : Type 0
Handled = Partition × List ProcessorEvent

abbrev pub delete_event : ℕ → ℕ → Option Replica → List ProcessorEvent
delete_event id node none = []
delete_event id node (some r) = partition_delete_event id node r ∷ []

-- Takes the task of the partition, and deletes a replica at a node.
unfoldable pub delete_a_replica : PartitionInfo → ℕ → ℕ → Partition → Outcome Handled
unfolding take_change_member_task pick_replica_to_delete
delete_a_replica info node now p =
    let task = take_change_member_task now p in
    if not task.0
    then ret (p, [])
    else (pick_replica_to_delete info >>= λ r. ret (task.1, delete_event info.id node r))

-- What follows an update: too many replicas, or too few.
unfoldable pub check_replicas_count : PartitionInfo → ℕ → Partition → Outcome Handled
unfolding delete_a_replica
check_replicas_count info now p =
    let task = take_change_member_task now p in
    if ltb fixed_replica_num (count_replicas p)
    then delete_a_replica info (pick_leader_node_id p) now p
    else if ltb (count_replicas p) fixed_replica_num
    then (if not task.0 then ret (p, []) else ret (task.1, partition_create_event p.id ∷ []))
    else ret (p, [])

-- The update of the whole group, and what follows it.
unfoldable pub update_group : PartitionInfo → Replica → ℕ → Partition → Outcome Handled
unfolding check_replicas_count
update_group info leader now p = update_replica_group_by_cond info leader now p >>= λ r.
    if r.0.ver_expired || not r.0.update_ok
    then ret (r.1, [])
    else check_replicas_count info now r.1

-- A partition that the cluster has.
unfoldable pub handle_known : PartitionInfo → ℕ → Partition → Outcome Handled
unfolding delete_a_replica update_group check_replicas_count
handle_known info now p =
    let hb = info.epoch.conf_version in
    let ms = p.epoch.conf_version in
    if ltb hb ms
    then delete_a_replica info (pick_leader_node_id p) now p
    else (pick_leader_replica info >>= λ picked. elim picked [
      | none ↦ ret (p, [])
      | some leader ↦
          let r = validate_and_update_leader_by_cond info leader now p in
          if ltb ms hb
          then update_group info leader now p
          else if r.0.ver_expired
          then ret (p, [])
          else if r.0.illegal
          then delete_a_replica info leader.node_id now p
          else if not r.0.update_ok
          then update_group info leader now p
          else check_replicas_count info now r.1
    ])

abbrev pub force_delete_event : ℕ → Option Replica → List ProcessorEvent
force_delete_event id none = []
force_delete_event id (some r) = force_partition_delete_event id r ∷ []

abbrev pub Cluster : Type 0
Cluster = List (ℕ × Partition)

-- A round of the loop.
unfoldable pub handle_info : PartitionInfo → ℕ → Cluster → Outcome (Cluster × List ProcessorEvent)
unfolding handle_known pick_replica_to_delete
handle_info info now partitions = elim (lookup info.id partitions) [
  | none ↦ (pick_replica_to_delete info >>= λ r. ret (partitions, force_delete_event info.id r))
  | some p ↦ (handle_known info now p >>= λ r. ret (insert info.id r.0 partitions, r.1))
]

-- Each round has its reading of the clock.
unfoldable pub handle_infos :
    List (PartitionInfo × ℕ) → Cluster → Outcome (Cluster × List ProcessorEvent)
unfolding handle_info
handle_infos [] partitions = ret (partitions, [])
handle_infos ((info, now) ∷ infos) partitions = handle_info info now partitions >>= λ r.
    handle_infos infos r.0 >>= λ rest. ret (rest.0, r.1 ++ rest.1)

pub data HeartbeatCode : Type 0 where
  err_suc not_leader ps_not_exists : HeartbeatCode

-- `known` says whether the cluster has the partition server, whose time of its last heartbeat is not
-- kept here.
unfoldable pub ps_heartbeat :
    Bool
    → Bool
    → List (PartitionInfo × ℕ)
    → Cluster
    → Outcome (HeartbeatCode × Cluster × List ProcessorEvent)
unfolding handle_infos
ps_heartbeat mine_is_leader known infos partitions =
    if not mine_is_leader
    then ret (not_leader, partitions, [])
    else if not known
    then ret (ps_not_exists, partitions, [])
    else (handle_infos infos partitions >>= λ r. ret (err_suc, r.0, r.1))
