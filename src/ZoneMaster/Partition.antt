-- ===== src/ZoneMaster/Partition.antt =====
-- zm/partition.go: a partition as the master of its zone knows it. What the lock guards is one step;
-- a reading of the clock is an argument, in nanoseconds after the zero time.
use baud.Base.{
  ℕ, ◌+◌, ◌*◌, Bool, true, false, not, ◌&&◌, ◌||◌, Option, none, some, List, [], ◌∷◌, ltb, leb,
  nat_beq, nat_eq, Outcome, ret, panic, length, map, if◌then◌else◌,
}
use baud.PartitionServer.Meta.{Status, Replica, Epoch}

pub record Partition : Type 0 where
  pub id : ℕ
  pub start_slot : ℕ
  pub end_slot : ℕ
  pub replicas : List Replica
  pub status : Status
  pub epoch : Epoch
  pub leader : Option Replica
  pub task_flag : Bool
  pub task_timeout : ℕ
  pub last_heartbeat : ℕ

pub record RaftStatus : Type 0 where
  pub replica : Replica
  pub followers : List Replica

-- What a partition server says of a partition in its heartbeat.
pub record PartitionInfo : Type 0 where
  pub id : ℕ
  pub is_leader : Bool
  pub status : Status
  pub epoch : Epoch
  pub raft_status : Option RaftStatus

pub record GroupUpdate : Type 0 where
  pub ver_expired : Bool
  pub update_ok : Bool

abbrev pub is_some : {A : Type 0} → Option A → Bool
is_some none = false
is_some (some a) = true

-- The partition in the topology is written too. A nil raft status panics.
unfoldable pub update_replica_group_by_cond :
    PartitionInfo → Replica → ℕ → Partition → Outcome (GroupUpdate × Partition)
update_replica_group_by_cond info leader_replica now p =
    let old = info.epoch.conf_version in
    let known = p.epoch.conf_version in
    if ltb old known || (nat_beq old known && is_some p.leader)
    then ret (record { ver_expired = true; update_ok = false }, p)
    else elim info.raft_status [
      | none ↦ panic
      | some raft ↦ ret (
        record { ver_expired = false; update_ok = true },
        record p {
          epoch = info.epoch;
          status = info.status;
          replicas = raft.replica ∷ raft.followers;
          task_flag = false;
          task_timeout = 0;
          last_heartbeat = now;
          leader = some leader_replica;
        },
      )
    ]

pub record LeaderUpdate : Type 0 where
  pub ver_expired : Bool
  pub illegal : Bool
  pub update_ok : Bool

abbrev pub has_replica_id : ℕ → List Replica → Bool
has_replica_id id [] = false
has_replica_id id (r ∷ replicas) = if nat_beq r.id id then true else has_replica_id id replicas

unfoldable pub validate_and_update_leader_by_cond :
    PartitionInfo → Replica → ℕ → Partition → LeaderUpdate × Partition
validate_and_update_leader_by_cond info leader_replica now p =
    if not (nat_beq info.epoch.conf_version p.epoch.conf_version)
    then (record { ver_expired = true; illegal = false; update_ok = false }, p)
    else if not (is_some p.leader)
    then (record { ver_expired = false; illegal = false; update_ok = false }, p)
    else if not (has_replica_id leader_replica.id p.replicas)
    then (record { ver_expired = false; illegal = true; update_ok = false }, p)
    else (
      record { ver_expired = false; illegal = false; update_ok = true },
      record p { last_heartbeat = now; leader = some leader_replica },
    )

unfoldable pub count_replicas : Partition → ℕ
count_replicas p = length p.replicas

abbrev pub last_replica : List Replica → Option Replica
last_replica [] = none
last_replica (r ∷ replicas) = elim replicas [ [] ↦ some r | _ ∷ _ ↦ last_replica replicas ]

-- The pointers are all to the variable of the loop, which holds the last replica in the end.
unfoldable pub get_all_replicas : Partition → List Replica
get_all_replicas p = elim (last_replica p.replicas) [
  | none ↦ []
  | some last ↦ map (λ r. last) p.replicas
]

unfoldable pub pick_leader_node_id : Partition → ℕ
pick_leader_node_id p = elim p.leader [ none ↦ 0 | some r ↦ r.node_id ]

abbrev pub find_replica : ℕ → List Replica → Option Replica
find_replica id [] = none
find_replica id (r ∷ replicas) = if nat_beq r.id id then some r else find_replica id replicas

unfoldable pub find_replica_by_id : ℕ → Partition → Option Replica
find_replica_by_id id p = find_replica id p.replicas

abbrev pub thirty_seconds : ℕ
thirty_seconds = 30 * 1000000000

unfoldable pub take_change_member_task : ℕ → Partition → Bool × Partition
take_change_member_task now p =
    if not p.task_flag || leb (p.task_timeout + thirty_seconds) now
    then (true, record p { task_flag = true; task_timeout = now })
    else (false, p)
