-- ===== src/PartitionServer/Server/Used.antt =====
-- The replicas of all partitions on a node.
use baud.Base.{
  ℕ, ◌+◌, ◌≡◌, ◌≢◌, ◌⊎◌, refl, ap, sym, ◌∙◌, Bool, false, Bool-cases, inl, inr, none, some, List,
  [], ◌∷◌, ◌++◌, nat_beq, nat_eq, ◌==◌, if◌then◌else◌, arith, ◌||◌,
}
use baud.Base.Assoc.{lookup, insert, remove, KeysDistinct, lookup-remove}
use baud.PartitionServer.Meta.{Replica}
use baud.PartitionServer.Resolver.Count.{count_node}
use baud.PartitionServer.Partition.{Partition, without_replica}

abbrev pub Partitions : Type 0
Partitions = List (ℕ × Partition)

abbrev pub used : ℕ → Partitions → ℕ
used n [] = 0
used n (entry ∷ ps) = count_node n entry.1.meta.replicas + used n ps

pub used-insert_new :
    (n id : ℕ) (p : Partition) (ps : Partitions)
    → lookup id ps ≡ none
    → used n (insert id p ps) ≡ used n ps + count_node n p.meta.replicas
unfolding lookup insert
used-insert_new n id p [] h = omega arith
used-insert_new n id p (entry ∷ ps) h = ground (arith, used-insert_new n id p ps, h)

pub used-insert_old :
    (n id : ℕ) (p q : Partition) (ps : Partitions)
    → lookup id ps ≡ some q
    → used n (insert id p ps) + count_node n q.meta.replicas
      ≡ used n ps + count_node n p.meta.replicas
unfolding lookup insert
used-insert_old n id p q [] h = absurd (ground (arith, h))
used-insert_old n id p q (entry ∷ ps) h = elim (Bool-cases (entry.0 == id)) [
  | inl e ↦ let same : entry.1 ≡ q = ground (arith, h, e) in rw (insert, e) (rw same (omega arith))
  | inr e ↦ rw (insert, e) (omega (arith, used-insert_old n id p q ps (ground (arith, h, e))))
]

pub used-remove_absent :
    (n id : ℕ) (ps : Partitions) → lookup id ps ≡ none → used n (remove id ps) ≡ used n ps
unfolding lookup remove
used-remove_absent n id [] h = refl
used-remove_absent n id (entry ∷ ps) h = ground (arith, used-remove_absent n id ps, h)

pub used-remove :
    (n id : ℕ) (q : Partition) (ps : Partitions)
    → KeysDistinct ps
    → lookup id ps ≡ some q
    → used n (remove id ps) + count_node n q.meta.replicas ≡ used n ps
unfolding lookup remove
used-remove n id q [] d h = absurd (ground (arith, h))
used-remove n id q (entry ∷ ps) d h = elim (Bool-cases (entry.0 == id)) [
  | inl e ↦
      let same : entry.1 ≡ q = ground (arith, h, e) in
      let here : entry.0 ≡ id = ground (arith, e) in
      let gone : lookup id ps ≡ none = rw (sym here) d.0 in
      rw (remove, e) (rw same (omega (arith, used-remove_absent n id ps gone)))
  | inr e ↦ rw (remove, e) (omega (arith, used-remove n id q ps d.1 (ground (arith, h, e))))
]

pub remove-KeysDistinct :
    {V : Type 0} (id : ℕ) (ps : List (ℕ × V)) → KeysDistinct ps → KeysDistinct (remove id ps)
unfolding remove
remove-KeysDistinct id [] d = tt
remove-KeysDistinct id (entry ∷ ps) d = elim (Bool-cases (entry.0 == id)) [
  | inl e ↦ rw (remove, e) (remove-KeysDistinct id ps d.1)
  | inr e ↦
      rw (remove, e)
        (ground (arith, lookup-remove id entry.0 ps, d.0), remove-KeysDistinct id ps d.1)
]

pub count_node-append :
    (n : ℕ) (rs : List Replica) (r : Replica)
    → count_node n (rs ++ (r ∷ [])) ≡ count_node n rs + (if nat_beq r.node_id n then 1 else 0)
count_node-append n [] r = omega arith
count_node-append n (x ∷ rs) r = omega (arith, count_node-append n rs r)

-- The replica is there under its id once, on its node.
abbrev pub has_replica : ℕ → List Replica → Bool
has_replica id [] = false
has_replica id (r ∷ rs) = nat_beq r.id id || has_replica id rs

abbrev pub IsMember : Replica → List Replica → Type 0
IsMember replica [] = ⊥
IsMember replica (r ∷ rs) =
    ((r.id ≡ replica.id) × (r.node_id ≡ replica.node_id) × (has_replica replica.id rs ≡ false))
    ⊎ ((r.id ≢ replica.id) × IsMember replica rs)

count_node-without_absent :
    (n id : ℕ) (rs : List Replica)
    → has_replica id rs ≡ false
    → count_node n (without_replica id rs) ≡ count_node n rs
count_node-without_absent n id [] h = refl
count_node-without_absent n id (r ∷ rs) h = ground (arith, count_node-without_absent n id rs, h)

pub count_node-without_replica :
    (n : ℕ) (replica : Replica) (rs : List Replica)
    → IsMember replica rs
    → count_node n (without_replica replica.id rs) + (if nat_beq replica.node_id n then 1 else 0)
      ≡ count_node n rs
count_node-without_replica n replica [] m = absurd m
count_node-without_replica n replica (r ∷ rs) m = elim m [
  | inl (a, b, c) ↦ ground (arith, a, b, count_node-without_absent n replica.id rs c)
  | inr (a, b) ↦ ground (arith, a, count_node-without_replica n replica rs b)
]

-- A partition is kept under its id.
abbrev pub IsKeyed : Partitions → Type 0
IsKeyed [] = Unit
IsKeyed (entry ∷ ps) = (entry.1.meta.id ≡ entry.0) × IsKeyed ps

pub lookup-IsKeyed :
    (id : ℕ) (p : Partition) (ps : Partitions) → IsKeyed ps → lookup id ps ≡ some p → p.meta.id ≡ id
unfolding lookup
lookup-IsKeyed id p [] k e = absurd (ground (arith, e))
lookup-IsKeyed id p (entry ∷ ps) k e = elim (Bool-cases (entry.0 == id)) [
  | inl b ↦
      let same : entry.1 ≡ p = ground (arith, e, b) in
      ap (λ (x : Partition). x.meta.id) (sym same) ∙ k.0 ∙ ground (arith, b)
  | inr b ↦ lookup-IsKeyed id p ps k.1 (ground (arith, e, b))
]

pub insert-IsKeyed :
    (id : ℕ) (p : Partition) (ps : Partitions)
    → p.meta.id ≡ id
    → IsKeyed ps
    → IsKeyed (insert id p ps)
unfolding insert
insert-IsKeyed id p [] h k = (h, tt)
insert-IsKeyed id p (entry ∷ ps) h k = elim (Bool-cases (entry.0 == id)) [
  | inl b ↦ rw (insert, b) (h, k.1)
  | inr b ↦ rw (insert, b) (k.0, insert-IsKeyed id p ps h k.1)
]

pub remove-IsKeyed : (id : ℕ) (ps : Partitions) → IsKeyed ps → IsKeyed (remove id ps)
unfolding remove
remove-IsKeyed id [] k = tt
remove-IsKeyed id (entry ∷ ps) k = elim (Bool-cases (entry.0 == id)) [
  | inl b ↦ rw (remove, b) (remove-IsKeyed id ps k.1)
  | inr b ↦ rw (remove, b) (k.0, remove-IsKeyed id ps k.1)
]
