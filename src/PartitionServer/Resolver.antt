-- ===== src/PartitionServer/Resolver.antt =====
-- ps/server/resolver.go: the addresses of nodes, kept while a replica refers to the node.
-- `refCount` is an int32: a number below 2 ^ 32, negative from 2 ^ 31 on.
pub mod Count
use baud.Base.{
  ℕ, ◌+◌, ◌-◌, ◌%◌, ◌^◌, Bool, ◌||◌, Option, none, some, List, [], ◌∷◌, leb, nat_beq, nat_eq,
  Result, ok, err, if◌then◌else◌,
}
use baud.Base.Bytes.{Bytes}
use baud.Base.Assoc.{lookup, insert, remove}
use baud.PartitionServer.Meta.{Replica, ReplicaAddrs}

pub record NodeRef : Type 0 where
  pub ref_count : ℕ
  pub heartbeat_addr : Bytes
  pub replicate_addr : Bytes

abbrev pub Nodes : Type 0
Nodes = List (ℕ × NodeRef)

abbrev pub int32_add : ℕ → ℕ
int32_add n = (n + 1) % 2 ^ 32

abbrev pub int32_sub : ℕ → ℕ
int32_sub n = (n + (2 ^ 32 - 1)) % 2 ^ 32

abbrev pub not_positive : ℕ → Bool
not_positive n = nat_beq n 0 || leb (2 ^ 31) n

-- A node that is there already keeps its addresses.
unfoldable pub add_node : ℕ → ReplicaAddrs → Nodes → Nodes
add_node id addrs nodes = if nat_beq id 0 then nodes else elim (lookup id nodes) [
  | some ref ↦ insert id (record ref { ref_count = int32_add ref.ref_count }) nodes
  | none ↦
      insert id
        (record {
          ref_count = int32_add 0;
          heartbeat_addr = addrs.heartbeat_addr;
          replicate_addr = addrs.replicate_addr;
        })
        nodes
]

unfoldable pub delete_node : ℕ → Nodes → Nodes
delete_node id nodes = elim (lookup id nodes) [
  | none ↦ nodes
  | some ref ↦
      if not_positive (int32_sub ref.ref_count)
      then remove id nodes
      else insert id (record ref { ref_count = int32_sub ref.ref_count }) nodes
]

pub data ResolveError : Type 0 where
  no_node unknown_socket_type : ResolveError

unfoldable pub get_node : ℕ → Nodes → Result ResolveError NodeRef
get_node id nodes = elim (lookup id nodes) [ none ↦ err no_node | some ref ↦ ok ref ]

pub data SocketType : Type 0 where
  heartbeat replicate : SocketType
  other : ℕ → SocketType

-- `metapb.NodeID(nodeID)` keeps the low 32 bits.
unfoldable pub node_address : ℕ → SocketType → Nodes → Result ResolveError Bytes
unfolding get_node
node_address node_id stype nodes = elim (get_node (node_id % 2 ^ 32) nodes) [
  | err e ↦ err e
  | ok ref ↦ elim stype [
    | heartbeat ↦ ok ref.heartbeat_addr
    | replicate ↦ ok ref.replicate_addr
    | other n ↦ err unknown_socket_type
  ]
]

-- The loops over the replicas of a partition in server_admin.go and server.go.
unfoldable pub add_nodes : List Replica → Nodes → Nodes
add_nodes [] nodes = nodes
add_nodes (r ∷ replicas) nodes = add_nodes replicas (add_node r.node_id r.addrs nodes)

unfoldable pub delete_nodes : List Replica → Nodes → Nodes
delete_nodes [] nodes = nodes
delete_nodes (r ∷ replicas) nodes = delete_nodes replicas (delete_node r.node_id nodes)
