-- ===== src/PartitionServer/Server/Counted.antt =====
-- The resolver counts the replicas of the partitions that the server has.
use baud.Base.{
  ℕ, ◌+◌, ◌^◌, ◌≡◌, ◌≢◌, ◌<◌, refl, ap, ◌∙◌, inl, inr, none, some, Option-cases, List, [], ◌∷◌,
  nat_eq, arith,
}
use baud.Base.Assoc.{lookup, insert, remove, KeysDistinct, insert-KeysDistinct}
use baud.PartitionServer.Meta.{Replica, Meta}
use baud.PartitionServer.Resolver.{Nodes, add_nodes, delete_nodes}
use baud.PartitionServer.Resolver.Count.{
  refs, CountsPositive, count_node, add_nodes-counts, delete_nodes-counts,
}
use baud.PartitionServer.Partition.{
  Partition, new_partition, Boot, no_path, no_store, no_apply_id, no_raft_store, booted, start,
  ConfChange, add_node_change, remove_node_change, other_change,
}
use baud.PartitionServer.Server.{Server, do_partition_create, do_partition_delete}
use baud.PartitionServer.Server.Used.{
  Partitions, used, used-insert_new, used-insert_old, used-remove, remove-KeysDistinct, IsMember,
  IsKeyed, insert-IsKeyed, remove-IsKeyed, lookup-IsKeyed,
}

pub record IsCounted (ps : Partitions) (nodes : Nodes) : Type 0 where
  pub distinct : KeysDistinct ps
  pub keyed : IsKeyed ps
  pub positive : CountsPositive nodes
  pub counted : (n : ℕ) → n ≢ 0 → refs n nodes ≡ used n ps

-- The counts stay below 2 ^ 31 when the replicas come in.
abbrev pub HasRoom : Partitions → List Replica → Type 0
HasRoom ps replicas = (n : ℕ) → n ≢ 0 → used n ps + count_node n replicas < 2 ^ 31

pub start-meta :
    (boot : Boot) (p : Partition)
    → ((start boot p).meta.replicas ≡ p.meta.replicas) × ((start boot p).meta.id ≡ p.meta.id)
unfolding start
start-meta (no_path made) p = (refl, refl)
start-meta no_store p = (refl, refl)
start-meta no_apply_id p = (refl, refl)
start-meta no_raft_store p = (refl, refl)
start-meta (booted created) p = (refl, refl)

-- A partition comes in with its replicas.
insert-IsCounted :
    (id : ℕ) (p : Partition) (ps : Partitions) (nodes : Nodes) (replicas : List Replica)
    → p.meta.replicas ≡ replicas
    → p.meta.id ≡ id
    → lookup id ps ≡ none
    → HasRoom ps replicas
    → IsCounted ps nodes
    → IsCounted (insert id p ps) (add_nodes replicas nodes)
insert-IsCounted id p ps nodes replicas same own e room c =
    let added = add_nodes-counts replicas nodes c.positive (λ n h. rw (c.counted n h) (room n h)) in
    record {
      distinct = insert-KeysDistinct id p ps c.distinct;
      keyed = insert-IsKeyed id p ps own c.keyed;
      positive = added.0;
      counted = λ n h.
          let old = c.counted n h in
          let new = added.1 n h in
          let use_new = used-insert_new n id p ps e in
          let reps = ap (count_node n) same in omega (arith, old, new, use_new, reps);
    }

-- A partition goes with its replicas.
remove-IsCounted :
    (id : ℕ) (p : Partition) (ps : Partitions) (nodes : Nodes)
    → lookup id ps ≡ some p
    → IsCounted ps nodes
    → IsCounted (remove id ps) (delete_nodes p.meta.replicas nodes)
remove-IsCounted id p ps nodes e c =
    let gone = delete_nodes-counts p.meta.replicas nodes c.positive in
    record {
      distinct = remove-KeysDistinct id ps c.distinct;
      keyed = remove-IsKeyed id ps c.keyed;
      positive = gone.0;
      counted = λ n h. omega (arith, c.counted n h, gone.1 n, used-remove n id p ps c.distinct e);
    }

-- A partition changes and keeps its replicas.
pub same-IsCounted :
    (id : ℕ) (p q : Partition) (ps : Partitions) (nodes : Nodes)
    → lookup id ps ≡ some p
    → q.meta.replicas ≡ p.meta.replicas
    → q.meta.id ≡ p.meta.id
    → IsCounted ps nodes
    → IsCounted (insert id q ps) nodes
same-IsCounted id p q ps nodes e same own c = record {
  distinct = insert-KeysDistinct id q ps c.distinct;
  keyed = insert-IsKeyed id q ps (own ∙ lookup-IsKeyed id p ps c.keyed e) c.keyed;
  positive = c.positive;
  counted =
      λ n h. omega (arith, c.counted n h, used-insert_old n id q p ps e, ap (count_node n) same);
}

pub do_partition_create-IsCounted :
    (boot : Boot) (meta : Meta) (s : Server)
    → lookup meta.id s.partitions ≡ none
    → HasRoom s.partitions meta.replicas
    → IsCounted s.partitions s.nodes
    → IsCounted (do_partition_create boot meta s).partitions (do_partition_create boot meta s).nodes
unfolding do_partition_create new_partition
do_partition_create-IsCounted boot meta s e room c =
    rw (do_partition_create, e)
      (insert-IsCounted meta.id (start boot (new_partition meta)) s.partitions s.nodes meta.replicas
        (start-meta boot (new_partition meta)).0 (start-meta boot (new_partition meta)).1 e room c)

pub do_partition_delete-IsCounted :
    (id : ℕ) (s : Server)
    → IsCounted s.partitions s.nodes
    → IsCounted (do_partition_delete id s).partitions (do_partition_delete id s).nodes
unfolding do_partition_delete
do_partition_delete-IsCounted id s c = elim (Option-cases (lookup id s.partitions)) [
  | inl e ↦ rw (do_partition_delete, e) c
  | inr (p, e) ↦ rw (do_partition_delete, e) (remove-IsCounted id p s.partitions s.nodes e c)
]

-- What a member change must be: a replica that comes in finds room, under its own node, and one that
-- goes is a member.
abbrev pub IsSound : ConfChange → ℕ → Replica → Partition → Partitions → Type 0
IsSound add_node_change peer replica p ps = HasRoom ps (replica ∷ [])
IsSound remove_node_change peer replica p ps = IsMember replica p.meta.replicas
IsSound other_change peer replica p ps = Unit
