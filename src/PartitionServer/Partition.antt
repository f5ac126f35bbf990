-- ===== src/PartitionServer/Partition.antt =====
-- ps/server/partition.go and partition_raft.go: a partition of the server.
-- What the locks guard is one step. `Close` is given the raft groups of the server and gives them
-- back. Replicas and commands are as their Unmarshal gives them.
pub mod Writable
pub mod Write
use baud.Base.{
  ℕ, ◌+◌, ◌%◌, ◌^◌, Bool, true, false, not, ◌&&◌, ◌||◌, Option, none, some, List, [], ◌∷◌, ◌++◌,
  leb, ltb, nat_beq, Result, ok, err, Outcome, ret, panic, if◌then◌else◌,
}
use baud.Base.Bytes.{Bytes}
use baud.PartitionServer.Meta.{
  Status, invalid, not_read, read_only, read_write, splitting, Replica, Epoch, Meta,
}
use baud.PartitionServer.Resolver.{Nodes, add_node, delete_node}

pub record Partition : Type 0 where
  pub meta : Meta
  pub leader : ℕ
  pub leader_addr : Bytes
  -- `closeOnce` has run.
  pub closed : Bool
  -- The store engine is set, whether open or closed again.
  pub store : Bool

unfoldable pub new_partition : Meta → Partition
new_partition meta = record {
  meta = record meta { status = not_read };
  leader = 0;
  leader_addr = [];
  closed = false;
  store = false;
}

abbrev pub with_status : Status → Partition → Partition
with_status s p = record p { meta = record p.meta { status = s } }

-- How far the calls of `start` come: the first one that fails, or all. A boot without its paths says
-- whether it made one of them, and one that comes to the raft group whether `CreateRaft` made it.
pub data Boot : Type 0 where
  no_store no_apply_id no_raft_store : Boot
  no_path booted : Bool → Boot

-- The error of `CreateRaft` is not looked at.
unfoldable pub start : Boot → Partition → Partition
start (no_path made) p = with_status invalid p
start no_store p = with_status invalid p
start no_apply_id p = with_status invalid (record p { store = true })
start no_raft_store p = with_status invalid (record p { store = true })
start (booted created) p = with_status read_only (record p { store = true })

abbrev pub without_id : ℕ → List ℕ → List ℕ
without_id id [] = []
without_id id (x ∷ xs) = let rest = without_id id xs in if nat_beq x id then rest else x ∷ rest

-- The raft groups of the server after `start`.
unfoldable pub start_raft : Boot → ℕ → List ℕ → List ℕ
start_raft (booted true) id rafts = id ∷ rafts
start_raft _ id rafts = rafts

unfoldable pub close : Partition → List ℕ → Partition × List ℕ
close p rafts =
    if p.closed
    then (p, rafts)
    else (with_status invalid (record p { closed = true }), without_id p.meta.id rafts)

-- An error of a request, with what it tells the caller.
pub data RequestError : Type 0 where
  partition_not_found no_leader : ℕ → RequestError
  not_leader : ℕ → ℕ → Bytes → Epoch → RequestError
  server_stopping shut_down_not_applied shut_down timed_out : RequestError
  other_error : ℕ → RequestError

abbrev pub is_closed_status : Status → Bool
is_closed_status invalid = true
is_closed_status not_read = true
is_closed_status _ = false

abbrev pub not_leader_of : Partition → RequestError
not_leader_of p = not_leader p.meta.id (p.leader % 2 ^ 32) p.leader_addr p.meta.epoch

unfoldable pub check_readable : Bool → ℕ → Partition → Option RequestError
check_readable read_leader node_id p =
    if is_closed_status p.meta.status
    then some (partition_not_found p.meta.id)
    else if nat_beq p.leader 0
    then some (no_leader p.meta.id)
    else if read_leader && not (nat_beq p.leader node_id)
    then some (not_leader_of p)
    else none

-- The address that the loop of `HandleLeaderChange` finds.
unfoldable pub rpc_addr_of : ℕ → List Replica → Bytes
rpc_addr_of node [] = []
rpc_addr_of node (r ∷ replicas) =
    if nat_beq r.node_id node then r.addrs.rpc_addr else rpc_addr_of node replicas

-- `term` is the answer of `LeaderTerm`. The Boolean is whether a heartbeat is triggered.
unfoldable pub handle_leader_change : ℕ → ℕ → ℕ → Partition → Partition × Bool
unfolding rpc_addr_of
handle_leader_change leader term node_id p =
    let version = p.meta.epoch.version in
    let epoch = record p.meta.epoch { version = if ltb version term then term else version } in
    let here = nat_beq leader node_id in
    let meta = record p.meta { epoch = epoch; status = if here then read_write else read_only } in
    if nat_beq p.leader leader then (p, false) else (
      record p { leader = leader; leader_addr = rpc_addr_of leader p.meta.replicas; meta = meta },
      here,
    )

pub data ConfChange : Type 0 where
  add_node_change remove_node_change other_change : ConfChange

abbrev pub has_node : ℕ → List Replica → Bool
has_node node [] = false
has_node node (r ∷ replicas) = nat_beq node r.node_id || has_node node replicas

-- The replicas without those of an id.
abbrev pub without_replica : ℕ → List Replica → List Replica
without_replica id [] = []
without_replica id (r ∷ replicas) =
    let rest = without_replica id replicas in if nat_beq r.id id then rest else r ∷ rest

abbrev pub next_conf : Epoch → Epoch
next_conf e = record e { conf_version = (e.conf_version + 1) % 2 ^ 64 }

-- `peer` is the node of the change, `replica` what its context holds. `make` with the capacity -1
-- panics.
unfoldable pub apply_member_change :
    ConfChange → ℕ → Replica → Partition → Nodes → Outcome (Partition × Nodes)
apply_member_change add_node_change peer replica p nodes =
    let meta = record p.meta {
      epoch = next_conf p.meta.epoch;
      replicas = p.meta.replicas ++ (replica ∷ []);
    } in
    if has_node peer p.meta.replicas
    then ret (p, nodes)
    else ret (record p { meta = meta }, add_node replica.node_id replica.addrs nodes)
apply_member_change remove_node_change peer replica p nodes = elim p.meta.replicas [
  | [] ↦ panic
  | r ∷ replicas ↦ ret (
    record p {
      meta = record p.meta {
        epoch = next_conf p.meta.epoch;
        replicas = without_replica replica.id (r ∷ replicas);
      };
    },
    delete_node replica.node_id nodes,
  )
]
apply_member_change other_change peer replica p nodes = ret (p, nodes)
