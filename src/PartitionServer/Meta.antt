-- ===== src/PartitionServer/Meta.antt =====
-- proto/metapb/meta.pb.go: what ps/server reads and writes of a partition and its replicas.
use baud.Base.{ℕ, List}
use baud.Base.Bytes.{Bytes}

pub data Status : Type 0 where
  invalid not_read read_only read_write splitting : Status

pub record ReplicaAddrs : Type 0 where
  pub heartbeat_addr : Bytes
  pub replicate_addr : Bytes
  pub rpc_addr : Bytes

pub record Replica : Type 0 where
  pub id : ℕ
  pub node_id : ℕ
  pub addrs : ReplicaAddrs

pub record Epoch : Type 0 where
  pub conf_version : ℕ
  pub version : ℕ

pub record Meta : Type 0 where
  pub id : ℕ
  pub replicas : List Replica
  pub status : Status
  pub epoch : Epoch
