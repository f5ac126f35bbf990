-- ===== src/PartitionServer/Resolver/Count.antt =====
-- The references to a node that the resolver counts.
use baud.Base.{
  ℕ, ◌+◌, ◌-◌, ◌^◌, ◌≡◌, ◌≢◌, ◌<◌, ◌⊎◌, refl, ap, sym, ◌∙◌, Bool-cases, inl, inr, Option, none,
  some, Option-cases, List, [], ◌∷◌, nat_beq, nat_eq, ◌==◌, if◌then◌else◌, arith,
}
use baud.Base.Assoc.{lookup, insert, remove, lookup-insert, lookup-remove}
use baud.PartitionServer.Meta.{Replica, ReplicaAddrs}
use baud.PartitionServer.Resolver.{
  NodeRef, Nodes, int32_add, int32_sub, not_positive, add_node, delete_node, add_nodes,
  delete_nodes,
}

-- The count of a node, 0 when the resolver does not know it.
abbrev pub count_of : Option NodeRef → ℕ
count_of none = 0
count_of (some ref) = ref.ref_count

abbrev pub refs : ℕ → Nodes → ℕ
refs n nodes = count_of (lookup n nodes)

-- A node that the resolver knows has a positive count, as an int32.
abbrev pub CountsPositive : Nodes → Type 0
CountsPositive nodes =
    (n : ℕ) (ref : NodeRef)
    → lookup n nodes ≡ some ref
    → (0 < ref.ref_count) × (ref.ref_count < 2 ^ 31)

-- The replicas on a node; node 0 is no node.
abbrev pub count_node : ℕ → List Replica → ℕ
count_node n [] = 0
count_node n (r ∷ replicas) = (if nat_beq r.node_id n then 1 else 0) + count_node n replicas

pub refs-add_node :
    (id n : ℕ) (addrs : ReplicaAddrs) (nodes : Nodes)
    → n ≢ 0
    → (id ≡ n → refs n nodes + 1 < 2 ^ 31)
    → refs n (add_node id addrs nodes) ≡ refs n nodes + (if nat_beq id n then 1 else 0)
unfolding add_node
refs-add_node id n addrs nodes h k = elim (Bool-cases (nat_beq id 0)) [
  | inl z ↦ rw (add_node, z) (ground (arith, z, h))
  | inr z ↦ elim (Option-cases (lookup id nodes)) [
    | inl e ↦
        let ref : NodeRef = record {
          ref_count = int32_add 0;
          heartbeat_addr = addrs.heartbeat_addr;
          replicate_addr = addrs.replicate_addr;
        } in
        rw (add_node, z, e) (ground (arith, lookup-insert id n ref nodes, e, k))
    | inr (old, e) ↦
        let ref : NodeRef = record old { ref_count = int32_add old.ref_count } in
        rw (add_node, z, e) (ground (arith, lookup-insert id n ref nodes, e, k))
  ]
]

pub refs-delete_node :
    (id n : ℕ) (nodes : Nodes)
    → CountsPositive nodes
    → refs n (delete_node id nodes) ≡ refs n nodes - (if nat_beq id n then 1 else 0)
unfolding delete_node
refs-delete_node id n nodes p = elim (Option-cases (lookup id nodes)) [
  | inl e ↦ rw (delete_node, e) (ground (arith, e))
  | inr (old, e) ↦
      let ref : NodeRef = record old { ref_count = int32_sub old.ref_count } in
      elim (Bool-cases (not_positive (int32_sub old.ref_count))) [
        | inl z ↦
            rw (delete_node, e, z) (ground (arith, lookup-remove id n nodes, e, p id old e, z))
        | inr z ↦
            rw (delete_node, e, z) (ground (arith, lookup-insert id n ref nodes, e, p id old e, z))
      ]
]

entry_after :
    (id n : ℕ) (ref : NodeRef) (nodes : Nodes) (found : NodeRef)
    → id ≢ 0
    → ref.ref_count ≡ int32_add (refs id nodes)
    → lookup n (insert id ref nodes) ≡ some found
    → (lookup n nodes ≡ some found) ⊎ ((id ≢ 0) × (found.ref_count ≡ int32_add (refs id nodes)))
entry_after id n ref nodes found ne e h =
    let b = sym (lookup-insert id n ref nodes) ∙ h in
    elim (Bool-cases (id == n)) [
      | inl q ↦
          let same : found.ref_count ≡ ref.ref_count = ground (arith, b, q) in inr (ne, same ∙ e)
      | inr q ↦ inl (ground (arith, b, q))
    ]

-- The entry of a node after the change of one.
lookup-add_node :
    (id n : ℕ) (addrs : ReplicaAddrs) (nodes : Nodes) (found : NodeRef)
    → lookup n (add_node id addrs nodes) ≡ some found
    → (lookup n nodes ≡ some found) ⊎ ((id ≢ 0) × (found.ref_count ≡ int32_add (refs id nodes)))
unfolding add_node
lookup-add_node id n addrs nodes found h = elim (Bool-cases (nat_beq id 0)) [
  | inl z ↦
      let a : add_node id addrs nodes ≡ nodes = rw (add_node, z) refl in
      inl (sym (ap (lookup n) a) ∙ h)
  | inr z ↦ elim (Option-cases (lookup id nodes)) [
    | inl e ↦
        let ref : NodeRef = record {
          ref_count = int32_add 0;
          heartbeat_addr = addrs.heartbeat_addr;
          replicate_addr = addrs.replicate_addr;
        } in
        let a : add_node id addrs nodes ≡ insert id ref nodes = rw (add_node, z, e) refl in
        entry_after id n ref nodes found (ground (arith, z)) (rw e refl) (sym (ap (lookup n) a) ∙ h)
    | inr (old, e) ↦
        let ref : NodeRef = record old { ref_count = int32_add old.ref_count } in
        let a : add_node id addrs nodes ≡ insert id ref nodes = rw (add_node, z, e) refl in
        entry_after id n ref nodes found (ground (arith, z)) (rw e refl) (sym (ap (lookup n) a) ∙ h)
  ]
]

pub add_node-CountsPositive :
    (id : ℕ) (addrs : ReplicaAddrs) (nodes : Nodes)
    → (id ≢ 0 → refs id nodes + 1 < 2 ^ 31)
    → CountsPositive nodes
    → CountsPositive (add_node id addrs nodes)
add_node-CountsPositive id addrs nodes k p n found h =
    elim (lookup-add_node id n addrs nodes found h) [
      | inl e ↦ p n found e
      | inr (ne, e) ↦ let small = k ne in rw e (omega arith, omega arith)
    ]

pub delete_node-CountsPositive :
    (id : ℕ) (nodes : Nodes) → CountsPositive nodes → CountsPositive (delete_node id nodes)
unfolding delete_node
delete_node-CountsPositive id nodes p n found h = elim (Option-cases (lookup id nodes)) [
  | inl e ↦
      let a : delete_node id nodes ≡ nodes = rw (delete_node, e) refl in
      p n found (sym (ap (lookup n) a) ∙ h)
  | inr (old, e) ↦
      let ref : NodeRef = record old { ref_count = int32_sub old.ref_count } in
      elim (Bool-cases (not_positive (int32_sub old.ref_count))) [
        | inl z ↦
            let a : delete_node id nodes ≡ remove id nodes = rw (delete_node, e, z) refl in
            let b = sym (lookup-remove id n nodes) ∙ sym (ap (lookup n) a) ∙ h in
            p n found (ground (arith, b))
        | inr z ↦
            let a : delete_node id nodes ≡ insert id ref nodes = rw (delete_node, e, z) refl in
            let b = sym (lookup-insert id n ref nodes) ∙ sym (ap (lookup n) a) ∙ h in
            elim (Bool-cases (id == n)) [
              | inl q ↦
                  let same : found.ref_count ≡ int32_sub old.ref_count = ground (arith, b, q) in
                  rw same (ground (arith, p id old e, z))
              | inr q ↦ p n found (ground (arith, b, q))
            ]
      ]
]

pub add_nodes-counts :
    (replicas : List Replica) (nodes : Nodes)
    → CountsPositive nodes
    → ((n : ℕ) → n ≢ 0 → refs n nodes + count_node n replicas < 2 ^ 31)
    → CountsPositive (add_nodes replicas nodes)
      × ((n : ℕ) → n ≢ 0 → refs n (add_nodes replicas nodes) ≡ refs n nodes + count_node n replicas)
unfolding add_nodes
add_nodes-counts [] nodes p k = (p, λ n h. omega arith)
add_nodes-counts (r ∷ replicas) nodes p k =
    let next = add_node r.node_id r.addrs nodes in
    let one = λ (n : ℕ) (h : n ≢ 0).
      refs-add_node r.node_id n r.addrs nodes h (λ e. ground (arith, k n h, e)) in
    let rest =
      add_nodes-counts replicas next
        (add_node-CountsPositive r.node_id r.addrs nodes (λ h. ground (arith, k r.node_id h)) p)
        (λ n h. ground (arith, k n h, one n h)) in
    (rest.0, λ n h. ground (arith, rest.1 n h, one n h))

pub delete_nodes-counts :
    (replicas : List Replica) (nodes : Nodes)
    → CountsPositive nodes
    → CountsPositive (delete_nodes replicas nodes)
      × ((n : ℕ) → refs n (delete_nodes replicas nodes) ≡ refs n nodes - count_node n replicas)
unfolding delete_nodes
delete_nodes-counts [] nodes p = (p, λ n. omega arith)
delete_nodes-counts (r ∷ replicas) nodes p =
    let one = λ (n : ℕ). refs-delete_node r.node_id n nodes p in
    let rest =
      delete_nodes-counts replicas (delete_node r.node_id nodes)
        (delete_node-CountsPositive r.node_id nodes p) in
    (rest.0, λ n. ground (arith, rest.1 n, one n))
