-- ===== src/PartitionServer/Tests.antt =====
-- A small server, and the theorems at concrete inputs.
use baud.Base.{
  ℕ, ◌≡◌, refl, Bool, true, false, Option, none, some, List, [], ◌∷◌, Result, ok, err, arith,
  nat_eq, nat_beq, if◌then◌else◌,
}
use baud.Base.Assoc.{lookup, insert, remove}
use baud.Base.Bytes.{Bytes}
use baud.PartitionServer.Meta.{Meta, Replica, ReplicaAddrs, not_read}
use baud.PartitionServer.Resolver.Count.{refs}
use baud.PartitionServer.Partition.{
  Partition, Boot, booted, no_store, new_partition, start, handle_leader_change, is_closed_status,
}
use baud.PartitionServer.Engine.{Engine}
use baud.PartitionServer.Partition.Writable.{starts, changes_leader, is_read_write}
use baud.PartitionServer.Partition.Write.{
  RequestUnion, ResponseUnion, create, delete, get_internal, bulk_internal, WriteError,
}
use baud.PartitionServer.Partition.Write.Served.{Runs-served}
use baud.PartitionServer.Server.{
  Server, do_admin_event, do_partition_create, create_partition_request, delete_partition_request,
  restart,
}
use baud.PartitionServer.Server.Steps.{Reach, here, next, creates, deletes, Counted, Reach-Counted}
use baud.PartitionServer.Server.Leak.{recreate_leaks}
use baud.PartitionServer.Server.Restart.{restart-recovers}

abbrev no_addrs : ReplicaAddrs
no_addrs = record { heartbeat_addr = []; replicate_addr = []; rpc_addr = [] }

abbrev replica : ℕ → ℕ → Replica
replica id node = record { id = id; node_id = node; addrs = no_addrs }

abbrev seven : Meta
seven = record {
  id = 7;
  replicas = replica 70 1 ∷ replica 71 2 ∷ [];
  status = not_read;
  epoch = record { conf_version = 1; version = 1 };
}

abbrev empty_server : Server
empty_server = record {
  node_id = 1;
  stopping = false;
  partitions = [];
  nodes = [];
  rafts = [];
  disk = 9 ∷ [];
  admin_event_ch = [];
  triggered = false;
}

empty_server-Counted : Counted empty_server
unfolding lookup
empty_server-Counted = record {
  distinct = tt;
  keyed = tt;
  positive = λ n ref h. absurd (ground (arith, h));
  counted = λ n h. refl;
}

abbrev with_seven : Boot → Server
with_seven boot = do_admin_event boot (create_partition_request seven) empty_server

with_seven-Reach : (boot : Boot) → Reach empty_server (with_seven boot)
unfolding lookup
with_seven-Reach boot =
    next empty_server (with_seven boot) here (creates boot seven refl (λ n h. ground arith) refl)

-- A partition is created and deleted.
Reach-Counted_example :
    Counted (do_admin_event no_store (delete_partition_request 7) (with_seven (booted true)))
Reach-Counted_example =
    Reach-Counted empty_server
      (do_admin_event no_store (delete_partition_request 7) (with_seven (booted true)))
      (next (with_seven (booted true))
        (do_admin_event no_store (delete_partition_request 7) (with_seven (booted true)))
        (with_seven-Reach (booted true)) (deletes no_store 7 refl))
      empty_server-Counted

-- Partition 7 does not open its store and is created again.
recreate_leaks_example :
    refs 1
      (do_admin_event (booted true) (create_partition_request seven) (with_seven no_store)).nodes
    ≡ 2
unfolding do_admin_event do_partition_create new_partition start lookup insert remove
recreate_leaks_example =
    recreate_leaks (booted true) seven (start no_store (new_partition seven)) (with_seven no_store)
      1
      (Reach-Counted empty_server (with_seven no_store) (with_seven-Reach no_store)
        empty_server-Counted)
      refl refl refl (λ n h. ground arith) (omega arith)

restart-recovers_example :
    lookup 7 (restart 2 ((booted true, seven) ∷ []) (with_seven no_store)).partitions
    ≡ some (start (booted true) (new_partition seven))
restart-recovers_example =
    (restart-recovers 2 ((booted true, seven) ∷ []) (with_seven no_store)
        (Reach-Counted empty_server (with_seven no_store) (with_seven-Reach no_store)
          empty_server-Counted)
        (λ n h. ground arith)).0
      7

-- An engine that keeps the last document and an apply id, except 0; a batch is what it will be.
abbrev cell : Engine (ℕ × ℕ) (ℕ × ℕ) ℕ
cell = record {
  new_write_batch = λ s. s;
  add_document = λ id doc b. (none, (b.0, doc));
  update_document = λ id doc upsert b. (ok true, (b.0, doc));
  delete_document = λ id b. (err id, b);
  set_batch_apply_id = λ n b. (none, if nat_beq n 0 then b else (n, b.1));
  commit = λ b s. (none, b);
  set_apply_id = λ n s. (none, if nat_beq n 0 then s else (n, s.1));
  get_document = λ id s. some s.1;
}

abbrev two_writes : List RequestUnion
two_writes =
    record {
      op_type = create;
      create = some (record { id = 1 ∷ []; doc_data = 5 ∷ [] });
      update = none;
      delete = none;
    }
    ∷ record {
      op_type = delete;
      create = none;
      update = none;
      delete = some (record { id = 2 ∷ [] });
    }
    ∷ []

-- Node 1 leads partition 7.
abbrev led : Partition
led = (handle_leader_change 1 3 1 (start (booted true) (new_partition seven))).0

Runs-served_example :
    ((resps : List ResponseUnion)
      → bulk_internal (ok []) led ≡ ok resps
      → (is_closed_status led.meta.status ≡ false)
        × (◌≡◌ {A = Result (WriteError × Bool) (List ResponseUnion)} (ok []) (ok resps)))
    × ((get_internal cell 1 none (1 ∷ []) led (11, 40)).1 ≡ none
        → (led.leader ≡ 1)
          × (is_closed_status led.meta.status ≡ false)
          × (◌≡◌ {A = Option Bool} none none))
    × (is_read_write led.meta.status ≡ true
        → (led.leader ≡ 1) × (get_internal cell 1 none (1 ∷ []) led (11, 40) ≡ (some 40, none)))
Runs-served_example =
    Runs-served cell 1 led (ok []) none (1 ∷ []) (11, 40) (omega arith)
      (changes_leader 1 3 (start (booted true) (new_partition seven)) (starts (booted true) seven))
