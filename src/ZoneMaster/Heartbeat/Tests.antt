-- ===== src/ZoneMaster/Heartbeat/Tests.antt =====
-- A small cluster, and the theorems at concrete inputs.
use baud.Base.{ℕ, ◌≡◌, refl, true, false, none, some, List, [], ◌∷◌, ret, arith, inl}
use baud.PartitionServer.Meta.{Replica, not_read, read_write}
use baud.ZoneMaster.Partition.{
  Partition, PartitionInfo, update_replica_group_by_cond, count_replicas,
}
use baud.ZoneMaster.Heartbeat.{
  ProcessorEvent, Cluster, HeartbeatCode, ps_heartbeat, handle_known, pick_leader_replica,
}
use baud.ZoneMaster.Heartbeat.AllGrow.{AllGrow, ps_heartbeat-Grows}
use baud.ZoneMaster.Heartbeat.Apart.{run_known, events_apart}

abbrev replica : ℕ → ℕ → Replica
replica id node = record {
  id = id;
  node_id = node;
  addrs = record { heartbeat_addr = []; replicate_addr = []; rpc_addr = [] };
}

abbrev part : Partition
part = record {
  id = 7;
  start_slot = 0;
  end_slot = 10;
  replicas = [];
  status = not_read;
  epoch = record { conf_version = 1; version = 1 };
  leader = none;
  task_flag = false;
  task_timeout = 0;
  last_heartbeat = 0;
}

-- Two replicas, one too many.
abbrev info : PartitionInfo
info = record {
  id = 7;
  is_leader = true;
  status = read_write;
  epoch = record { conf_version = 2; version = 1 };
  raft_status = some (record { replica = replica 70 1; followers = replica 71 2 ∷ [] });
}

ps_heartbeat-Grows_example :
    (code : HeartbeatCode) × (d : Cluster) × (events : List ProcessorEvent) × (ps_heartbeat true
        true
        ((info, 100) ∷ [])
        ((7, part) ∷ [])
      ≡ ret (code, d, events))
    × AllGrow ((7, part) ∷ []) d
ps_heartbeat-Grows_example =
    ps_heartbeat-Grows true true ((info, 100) ∷ []) ((7, part) ∷ []) (inl (refl, (_, refl)), tt)

abbrev after : Partition
after = record part {
  replicas = replica 70 1 ∷ replica 71 2 ∷ [];
  status = read_write;
  epoch = record { conf_version = 2; version = 1 };
  leader = some (replica 70 1);
  task_flag = true;
  task_timeout = 100;
  last_heartbeat = 100;
}

-- The report deletes a replica, and again a second later no other.
events_apart_example :
    (last : Partition) × (run_known ((info, 1000000100) ∷ []) after ≡ ret (last, []))
unfolding handle_known pick_leader_replica update_replica_group_by_cond count_replicas
events_apart_example =
    (events_apart info 100 part after _ [] ((info, 1000000100) ∷ []) refl refl
      (inl (refl, (_, refl)), omega arith, omega arith, tt)).1
