-- ===== src/PartitionServer/Server.antt =====
-- ps/server/server.go and server_admin.go: the partitions of a server and the requests to it.
-- A step is a handled event. `triggered` is the heartbeat channel, which holds one signal; `disk` has
-- the partitions with a directory under `data` or `raft`; a boot comes with each start.
pub mod Used
pub mod Counted
pub mod Members
pub mod Steps
pub mod Leak
pub mod Closed
pub mod Restart
use baud.Base.{
  ℕ, zero, suc, ◌+◌, ◌%◌, ◌^◌, Bool, true, false, not, ◌&&◌, Option, none, some, List, [], ◌∷◌,
  ◌++◌, leb, nat_beq, nat_eq, Outcome, ret, panic, length, map, if◌then◌else◌,
}
use baud.Base.Bytes.{Bytes}
use baud.Base.Assoc.{lookup, insert, remove}
use baud.PartitionServer.Meta.{Status, invalid, Replica, Meta}
use baud.PartitionServer.Resolver.{Nodes, add_nodes, delete_nodes}
use baud.PartitionServer.Partition.{
  Partition, new_partition, Boot, no_path, start, start_raft, close, without_id,
  handle_leader_change, ConfChange, apply_member_change,
}

pub data Event : Type 0 where
  create_partition_request : Meta → Event
  delete_partition_request : ℕ → Event

pub record Server : Type 0 where
  pub node_id : ℕ
  pub stopping : Bool
  pub partitions : List (ℕ × Partition)
  pub nodes : Nodes
  pub rafts : List ℕ
  pub disk : List ℕ
  pub admin_event_ch : List Event
  pub triggered : Bool

abbrev pub trigger : Server → Server
trigger s = record s { triggered = true }

-- The directories after `getDataAndRaftPath`.
abbrev pub make_path : Boot → ℕ → List ℕ → List ℕ
make_path (no_path false) id disk = disk
make_path _ id disk = id ∷ disk

-- The new partition of an id that the server has is closed, and with it the raft group of the id.
unfoldable pub do_partition_create : Boot → Meta → Server → Server
do_partition_create boot meta s =
    let fresh = new_partition meta in
    elim (lookup meta.id s.partitions) [
      | some p ↦ record s { rafts = (close fresh s.rafts).1 }
      | none ↦ record s {
        partitions = insert meta.id (start boot fresh) s.partitions;
        nodes = add_nodes meta.replicas s.nodes;
        rafts = start_raft boot meta.id s.rafts;
        disk = make_path boot meta.id s.disk;
      }
    ]

unfoldable pub do_partition_delete : ℕ → Server → Server
do_partition_delete id s =
    let cleared = record s { disk = without_id id s.disk } in
    elim (lookup id s.partitions) [
      | none ↦ cleared
      | some p ↦ record cleared {
        partitions = remove id s.partitions;
        rafts = (close p s.rafts).1;
        nodes = delete_nodes p.meta.replicas s.nodes;
      }
    ]

abbrev pub is_invalid : Status → Bool
is_invalid invalid = true
is_invalid _ = false

unfoldable pub do_admin_event : Boot → Event → Server → Server
unfolding do_partition_create do_partition_delete
do_admin_event boot (create_partition_request meta) s =
    if s.stopping then s else elim (lookup meta.id s.partitions) [
      | none ↦ trigger (do_partition_create boot meta s)
      | some p ↦
          if not (is_invalid p.meta.status)
          then s
          else trigger (
              do_partition_create boot meta (record s {
                rafts = (close p s.rafts).1;
                partitions = remove meta.id s.partitions;
              }))
    ]
do_admin_event boot (delete_partition_request id) s =
    if s.stopping then s else trigger (do_partition_delete id s)

-- The codes of the answers.
abbrev pub resp_code_ok : ℕ
resp_code_ok = 0

abbrev pub resp_code_server_stop : ℕ
resp_code_server_stop = 511

abbrev pub ps_resp_code_no_partition : ℕ
ps_resp_code_no_partition = 404

abbrev pub ps_resp_code_not_leader : ℕ
ps_resp_code_not_leader = 400

-- `CreatePartition` and `DeletePartition`: the event waits while the channel holds 64, and the call
-- with it, `none`.
unfoldable pub request_admin : Event → Server → Option (ℕ × Server)
request_admin event s =
    if s.stopping
    then some (resp_code_server_stop, s)
    else if leb 64 (length s.admin_event_ch)
    then none
    else some (resp_code_ok, record s { admin_event_ch = s.admin_event_ch ++ (event ∷ []) })

-- The code, and whether the change is handed to raft. `is_leader` is the answer of raft.
unfoldable pub change_replica : Bool → ℕ → Server → ℕ × Bool
change_replica is_leader id s =
    if s.stopping then (resp_code_server_stop, false) else elim (lookup id s.partitions) [
      | none ↦ (ps_resp_code_no_partition, false)
      | some p ↦ if not is_leader then (ps_resp_code_not_leader, false) else (resp_code_ok, true)
    ]

unfoldable pub change_leader : ℕ → Server → ℕ × Bool
change_leader id s =
    if s.stopping then (resp_code_server_stop, false) else elim (lookup id s.partitions) [
      | none ↦ (ps_resp_code_no_partition, false)
      | some p ↦ (resp_code_ok, true)
    ]

-- The callbacks of raft, at a partition that the server has.
unfoldable pub member_change : ℕ → ConfChange → ℕ → Replica → Server → Outcome Server
member_change id change peer replica s = elim (lookup id s.partitions) [
  | none ↦ ret s
  | some p ↦ elim (apply_member_change change peer replica p s.nodes) [
    | panic ↦ panic
    | ret (p', nodes) ↦ ret (record s { partitions = insert id p' s.partitions; nodes = nodes })
  ]
]

unfoldable pub leader_change : ℕ → ℕ → ℕ → Server → Server
leader_change id leader term s = elim (lookup id s.partitions) [
  | none ↦ s
  | some p ↦
      let r = handle_leader_change leader term s.node_id p in
      let t = record s { partitions = insert id r.0 s.partitions } in if r.1 then trigger t else t
]

unfoldable pub handle_fatal_event : ℕ → Server → Server
handle_fatal_event id s = elim (lookup id s.partitions) [
  | none ↦ s
  | some p ↦
      let r = close p s.rafts in
      trigger (record s { partitions = insert id r.0 s.partitions; rafts = r.1 })
]

-- The loop of `closeAllRange`, over the entries in the order that `Range` yields them.
unfoldable pub close_all : List (ℕ × Partition) → Server → Server
close_all [] s = s
close_all ((id, p) ∷ entries) s = close_all entries (record s {
  rafts = (close p s.rafts).1;
  partitions = remove p.meta.id s.partitions;
  nodes = delete_nodes p.meta.replicas s.nodes;
})

unfoldable pub close_all_range : Server → Server
close_all_range s = close_all s.partitions s

abbrev pub has_id : ℕ → List Meta → Bool
has_id id [] = false
has_id id (m ∷ metas) = if nat_beq m.id id then true else has_id id metas

-- What `destroyExcludePartition` leaves of the directories.
unfoldable pub destroy_exclude_partition : List Meta → List ℕ → List ℕ
destroy_exclude_partition metas [] = []
destroy_exclude_partition metas (id ∷ disk) =
    let rest = destroy_exclude_partition metas disk in if has_id id metas then id ∷ rest else rest

-- The partitions of the master, in the order in which the workers of `recoverPartitions` come to
-- them.
unfoldable pub recover_partitions : List (Boot × Meta) → Server → Server
recover_partitions [] s = s
recover_partitions ((boot, meta) ∷ metas) s =
    recover_partitions metas (do_partition_create boot meta s)

-- `doStart(false)` once the master has answered with a node and its partitions: a new node stops the
-- raft server and its groups. With no partitions all directories go, which is what is left of them
-- when all but those of no partition go.
unfoldable pub do_start : ℕ → List (Boot × Meta) → Server → Server
unfolding destroy_exclude_partition recover_partitions
do_start node_id metas s =
    let named = record s {
      node_id = node_id;
      rafts = if nat_beq s.node_id node_id then s.rafts else [];
      disk = destroy_exclude_partition (map (λ m. m.1) metas) s.disk;
    } in
    trigger (record (recover_partitions metas named) { stopping = false })

-- `restart`, which forgets the events that wait.
unfoldable pub restart : ℕ → List (Boot × Meta) → Server → Server
unfolding close_all_range do_start
restart node_id metas s =
    do_start node_id metas (close_all_range (record s { stopping = true; admin_event_ch = [] }))
