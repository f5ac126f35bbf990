-- ===== src/PartitionServer/Server/Members.antt =====
-- The counts after a change of the members of a partition.
use baud.Base.{
  ℕ, ◌≡◌, refl, ap, sym, ◌∙◌, Bool-cases, inl, inr, some, List, [], ◌∷◌, ◌++◌, nat_eq, arith,
  Outcome, ret,
}
use baud.Base.Assoc.{lookup, insert, insert-KeysDistinct}
use baud.PartitionServer.Meta.{Replica}
use baud.PartitionServer.Resolver.{Nodes, add_node, delete_node}
use baud.PartitionServer.Resolver.Count.{
  count_node, refs-add_node, refs-delete_node, add_node-CountsPositive, delete_node-CountsPositive,
}
use baud.PartitionServer.Partition.{
  Partition, ConfChange, add_node_change, remove_node_change, other_change, apply_member_change,
  has_node, without_replica, next_conf,
}
use baud.PartitionServer.Server.Used.{
  Partitions, used-insert_old, count_node-append, IsMember, count_node-without_replica,
  insert-IsKeyed, lookup-IsKeyed,
}
use baud.PartitionServer.Server.Counted.{IsCounted, HasRoom, IsSound, same-IsCounted}

-- One replica more, and its node with it.
joined-Counted :
    (id : ℕ) (p q : Partition) (replica : Replica) (ps : Partitions) (nodes : Nodes)
    → lookup id ps ≡ some p
    → q.meta.replicas ≡ p.meta.replicas ++ (replica ∷ [])
    → q.meta.id ≡ p.meta.id
    → HasRoom ps (replica ∷ [])
    → IsCounted ps nodes
    → IsCounted (insert id q ps) (add_node replica.node_id replica.addrs nodes)
joined-Counted id p q replica ps nodes e reps own room c =
    let node = replica.node_id in
    record {
      distinct = insert-KeysDistinct id q ps c.distinct;
      keyed = insert-IsKeyed id q ps (own ∙ lookup-IsKeyed id p ps c.keyed e) c.keyed;
      positive =
          add_node-CountsPositive node replica.addrs nodes
            (λ h. ground (arith, room node h, c.counted node h)) c.positive;
      counted = λ n h. omega (
        arith,
        c.counted n h,
        used-insert_old n id q p ps e,
        ap (count_node n) reps,
        count_node-append n p.meta.replicas replica,
        refs-add_node node n replica.addrs nodes h
            (λ x. ground (arith, room n h, c.counted n h, x)),
      );
    }

-- One member less, and its node with it.
left-Counted :
    (id : ℕ) (p q : Partition) (replica : Replica) (ps : Partitions) (nodes : Nodes)
    → lookup id ps ≡ some p
    → q.meta.replicas ≡ without_replica replica.id p.meta.replicas
    → q.meta.id ≡ p.meta.id
    → IsMember replica p.meta.replicas
    → IsCounted ps nodes
    → IsCounted (insert id q ps) (delete_node replica.node_id nodes)
left-Counted id p q replica ps nodes e reps own m c = record {
  distinct = insert-KeysDistinct id q ps c.distinct;
  keyed = insert-IsKeyed id q ps (own ∙ lookup-IsKeyed id p ps c.keyed e) c.keyed;
  positive = delete_node-CountsPositive replica.node_id nodes c.positive;
  counted = λ n h. omega (
    arith,
    c.counted n h,
    used-insert_old n id q p ps e,
    ap (count_node n) reps,
    count_node-without_replica n replica p.meta.replicas m,
    refs-delete_node replica.node_id n nodes c.positive,
  );
}

ret_pair :
    (p q : Partition) (nodes others : Nodes)
    → ◌≡◌ {A = Outcome (Partition × Nodes)} (ret (p, nodes)) (ret (q, others))
    → (q ≡ p) × (others ≡ nodes)
ret_pair p q nodes others e = (cc, cc)

pub applied-Counted :
    (id : ℕ) (change : ConfChange) (peer : ℕ) (replica : Replica) (p q : Partition)
    (ps : Partitions) (nodes others : Nodes)
    → lookup id ps ≡ some p
    → IsSound change peer replica p ps
    → apply_member_change change peer replica p nodes ≡ ret (q, others)
    → IsCounted ps nodes
    → IsCounted (insert id q ps) others
unfolding apply_member_change
applied-Counted id add_node_change peer replica p q ps nodes others e sound h c =
    elim (Bool-cases (has_node peer p.meta.replicas)) [
      | inl b ↦
          let (a, d) = ret_pair p q nodes others (sym (rw (apply_member_change, b) refl) ∙ h) in
          rw (a, d) (same-IsCounted id p p ps nodes e refl refl c)
      | inr b ↦
          let (a, d) =
            ret_pair
              (record p {
                meta = record p.meta {
                  epoch = next_conf p.meta.epoch;
                  replicas = p.meta.replicas ++ (replica ∷ []);
                };
              })
              q (add_node replica.node_id replica.addrs nodes) others
              (sym (rw (apply_member_change, b) refl) ∙ h) in
          rw (a, d) (joined-Counted id p _ replica ps nodes e refl refl sound c)
    ]
applied-Counted id remove_node_change peer replica p q ps nodes others e sound h c =
    left_at p.meta.replicas refl h
  where
    left_at :
        (rs : List Replica)
        → rs ≡ p.meta.replicas
        → apply_member_change remove_node_change peer replica
            (record p { meta = record p.meta { replicas = rs } })
            nodes
          ≡ ret (q, others)
        → IsCounted (insert id q ps) others
    left_at [] k g = absurd (ground (arith, g))
    left_at (r ∷ rs) k g =
        let after : Partition = record p {
          meta = record p.meta {
            epoch = next_conf p.meta.epoch;
            replicas = without_replica replica.id (r ∷ rs);
          };
        } in
        let (a, d) = ret_pair after q (delete_node replica.node_id nodes) others g in
        let fewer : q.meta.replicas ≡ without_replica replica.id p.meta.replicas =
          ap (λ (x : Partition). x.meta.replicas) a ∙ ap (without_replica replica.id) k in
        rw d (
          left-Counted id p q replica ps nodes e fewer (ap (λ (x : Partition). x.meta.id) a) sound
            c)
applied-Counted id other_change peer replica p q ps nodes others e sound h c =
    let (a, d) = ret_pair p q nodes others h in
    rw (a, d) (same-IsCounted id p p ps nodes e refl refl c)
