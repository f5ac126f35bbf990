-- ===== src/PartitionServer/Server/Leak.antt =====
-- A partition that is created again over an invalid one.
use baud.Base.{ℕ, ◌+◌, ◌≡◌, ◌≢◌, refl, ap, ◌∙◌, true, false, none, some, nat_eq, arith, ==_refl}
use baud.Base.Assoc.{lookup, remove, lookup-remove}
use baud.PartitionServer.Meta.{Meta}
use baud.PartitionServer.Resolver.Count.{refs, count_node, add_nodes-counts}
use baud.PartitionServer.Partition.{Partition, Boot, new_partition, start}
use baud.PartitionServer.Server.{
  Server, create_partition_request, do_admin_event, do_partition_create, is_invalid,
}
use baud.PartitionServer.Server.Used.{used, used-insert_new, used-remove}
use baud.PartitionServer.Server.Counted.{HasRoom, start-meta}
use baud.PartitionServer.Server.Steps.{Counted}

-- A server that is not stopping creates a partition that it has and that is invalid: its resolver
-- counts the replicas of the partition that goes although they are gone.
pub recreate_leaks :
    (boot : Boot) (meta : Meta) (p : Partition) (s : Server) (n : ℕ)
    → Counted s
    → lookup meta.id s.partitions ≡ some p
    → is_invalid p.meta.status ≡ true
    → s.stopping ≡ false
    → HasRoom s.partitions meta.replicas
    → n ≢ 0
    → let t = do_admin_event boot (create_partition_request meta) s in
      refs n t.nodes ≡ used n t.partitions + count_node n p.meta.replicas
unfolding do_admin_event do_partition_create new_partition
recreate_leaks boot meta p s n c e v going room h =
    let fresh = start boot (new_partition meta) in
    let gone : lookup meta.id (remove meta.id s.partitions) ≡ none =
      lookup-remove meta.id meta.id s.partitions ∙ rw (==_refl meta.id) refl in
    let nodes =
      add_nodes-counts meta.replicas s.nodes c.positive (λ m k. rw (c.counted m k) (room m k)) in
    let left = used-remove n meta.id p s.partitions c.distinct e in
    let came = used-insert_new n meta.id fresh (remove meta.id s.partitions) gone in
    let same = ap (count_node n) (start-meta boot (new_partition meta)).0 in
    rw (do_admin_event, going, e, v, do_partition_create, gone)
      (omega (arith, nodes.1 n h, c.counted n h, left, came, same))
