-- ===== src/Lib.antt =====
-- BaudEngine: the storage core of a distributed document database.
--
-- The library models the in-memory key-value store of the search engine kernel, the keys and rows
-- of its index, the frequencies of terms, the partitions of a partition server, the router's
-- partitions of a space, a cache whose entries die, and the time wheel, the partitions and the
-- heartbeat of the zone master.
--
-- Parts, and the code that they are about:
--   Base: lists, Go maps as association lists, byte slices with `bytes.Compare`, panics.
--   Memstore: engine/kernel/store/memstore/btreedb and batch.go.
--     Item, Tree, ListTree: the items of the tree, `github.com/google/btree` as a parameter with
--       its documented laws, and a list that meets them.
--     Db, Tx, Scan: btree.go. A call takes the database and the transaction and gives both back;
--       a panic is an outcome, a wait for the lock is `none`. `Tx.Set` is `set`, `Tx.Get` is `get`,
--       `DB.managed` is `managed`, `Tx.scan` is `scan`, and so on, in snake case.
--     Batch, Store: batch.go and store.go. `Store.Put` is `put`, `Store.Get` is `get_value`,
--       `Store.Delete` is `delete_key`.
--     Locks: callers that interleave their calls, as a step relation.
--   Analysis: engine/kernel/analysis/freq.go, `TokenFrequency` as `token_frequency`, `MergeAll` as
--       `merge_all`. Counts: what they count.
--   Index: engine/kernel/index/indexImpl/encoding.go, `encodeStoreFieldKey` as `encode_store_field_key`,
--       and so on. Codec, SmallCodec: util/encoding as a parameter with its documented laws, and a
--       codec that meets them. Encoding.Parts, Keys, Prefix, Rows: what the keys and rows keep.
--   PartitionServer: ps/server. A method is a function in snake case: `doPartitionCreate` is
--       `do_partition_create`, `Server.restart` is `restart`, and so on.
--     Meta, Engine: proto/metapb's records, and engine/engine.go as a record of operations.
--     Resolver: resolver.go, the addresses of nodes with their counts as int32. Count: the counts.
--     Partition: partition.go and partition_raft.go. `start` takes how far the calls of the engine and
--       raft come, `HandleLeaderChange` is `handle_leader_change`. Writable: who may read and write.
--     Partition.Write: partition_api.go; Answers, Served: what requests get.
--     Server: server.go and server_admin.go; a server is its partitions, its resolver, the ids of its
--       raft groups, the directories on its disk and the events that wait. Used, Counted, Members:
--       the replicas that the resolver counts. Steps: the events as a step relation. Closed, Restart:
--       the restart. Leak: a creation over an invalid partition.
--   Router.Search: `sort.Search`. Router.Space: router/model_space.go, `Space.getPartition` as
--       `get_position`, `Space.GetPartition` as `get_partition`, `Space.Delete` as `delete_partition`.
--       Ordered, Found, Added: what is found, deleted and added. Hidden: routes that start
--       where a known partition ends. The partitions that a loop adds
--       point at its variable, as in Go before 1.22.
--   TtlCache: util/ttlcache/cache.go. `TTLCache.Put` is `put_node`, `Get` with the function `get` is
--       `get_node`, `Delete` is `delete_node`, `GetAll` is `get_all`. Alive: the map of what is alive.
--   ZoneMaster.TimeWheel: zm/time_wheel.go. `TimeWheel.addTask` is `add_task`, `scanAndRunTask` is
--       `scan_and_run_task`, and so on; `handle` is a round of the loop `start`. Count, Moves, Valid,
--       Due: the wheel as a bag of countdowns. Fires, Safe, Cancel: runs of many events.
--   ZoneMaster.Partition, PartitionTree: zm/partition.go. `Partition.UpdateReplicaGroupByCond` is
--       `update_replica_group_by_cond`, and so on; `PartitionTree.update` is `update`, `remove` is
--       `remove_range`, `search` is `search_slot`. `github.com/google/btree` is a parameter with its
--       documented laws, ListBtree a list that meets them. Ranges, Searches, Cuts: lists of partitions
--       that do not overlap. Updates, Removals, Scans, Boundary: what searches find.
--   ZoneMaster.Heartbeat: zm/rpc_server.go, `PSHeartbeat` as `ps_heartbeat`, a round of its loop as
--       `handle_info`. ZoneMaster.Caches: zm/db.go and zm/space.go, the caches of databases and of spaces,
--       which differ in `delete_db` and `delete_space`. Named: names and ids. Heartbeat.Grows, AllGrow: the cluster afterwards. Takes, Apart: the events that it gives.
--
-- How they interact: the store runs each call in a transaction of the database; a transaction
-- holds the database's read-write lock from `Begin` to its end, writes to the tree at once and
-- keeps in its rollback map what to put back.
--
-- A partition server hands each event of its master and of raft to one of its partitions, counts the
-- replicas of all of them in its resolver, and writes what raft has agreed on into the engine of the
-- partition by a batch.
--
-- A partition server tells the master of its zone in a heartbeat what it has, and the master answers
-- with tasks; the router asks the master for the partitions of a space, which the master looks up in
-- its tree.
--
-- The wheel shares no state with the store: its loop alone touches its slots and timers.
--
-- The index finds the keys of a document by the prefixes that Encoding.Prefix is about.
--
-- Loops run over lists, but for two. The decoding of the terms of a field takes the number of bytes
-- as its fuel: each round takes at least one. The binary search takes the length: each round makes its
-- range smaller.
--
-- Not modelled: the code of the imported trees (parameters with laws), util/match (a parameter,
-- the code of another project), the aliasing of byte slices between the caller and the tree, the
-- fairness of the lock, callbacks that panic, the goroutines of the wheel's callbacks, calls of the
-- router and of the cache that interleave, the registration, the heartbeat and the configuration of
-- the partition server, raft and the engine behind it (answers and a parameter without laws), code within
-- one of its events that interleaves with another, the topology that the zone master writes and its
-- processors, and the parts of the repository that are not named above.
pub mod Base
pub mod Analysis
pub mod Memstore
pub mod Index
pub mod PartitionServer
pub mod Router
pub mod TtlCache
pub mod ZoneMaster
