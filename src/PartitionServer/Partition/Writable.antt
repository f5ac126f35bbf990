-- ===== src/PartitionServer/Partition/Writable.antt =====
-- Who may read and write a partition.
use baud.Base.{
  ℕ, ◌≡◌, ◌≢◌, refl, sym, ◌∙◌, Bool, true, false, Bool-cases, inl, inr, none, List, [], ◌∷◌, arith,
  nat_beq, if◌then◌else◌, Outcome, ret, panic,
}
use mathlib.Core.Path.{subst}
use baud.PartitionServer.Meta.{
  Status, invalid, not_read, read_only, read_write, splitting, Replica, Meta,
}
use baud.PartitionServer.Resolver.{Nodes}
use baud.PartitionServer.Partition.{
  Partition, new_partition, Boot, no_path, no_store, no_apply_id, no_raft_store, booted, start,
  close, check_readable, is_closed_status, handle_leader_change, ConfChange, add_node_change,
  remove_node_change, other_change, apply_member_change, has_node,
}

-- The server makes a partition and starts it; then raft and the server call it.
pub data Runs (node_id : ℕ) : Partition → Type 0 where
  starts : (boot : Boot) (meta : Meta) → Runs node_id (start boot (new_partition meta))
  changes_leader :
      (leader term : ℕ) (p : Partition)
      → Runs node_id p
      → Runs node_id (handle_leader_change leader term node_id p).0
  changes_member :
      (change : ConfChange) (peer : ℕ) (replica : Replica) (nodes nodes' : Nodes) (p p' : Partition)
      → Runs node_id p
      → apply_member_change change peer replica p nodes ≡ ret (p', nodes')
      → Runs node_id p'
  closes : (rafts : List ℕ) (p : Partition) → Runs node_id p → Runs node_id (close p rafts).0

abbrev pub is_read_write : Status → Bool
is_read_write read_write = true
is_read_write _ = false

-- A partition that is open for writing is led by this node, and one that is led by another is open
-- for reading at most.
abbrev pub LeadsWhenWritable : ℕ → Partition → Type 0
LeadsWhenWritable node_id p = is_read_write p.meta.status ≡ true → p.leader ≡ node_id

start-Leads : (node_id : ℕ) (boot : Boot) (p : Partition) → LeadsWhenWritable node_id (start boot p)
unfolding start
start-Leads node_id (no_path made) p h = absurd (ground (arith, h))
start-Leads node_id no_store p h = absurd (ground (arith, h))
start-Leads node_id no_apply_id p h = absurd (ground (arith, h))
start-Leads node_id no_raft_store p h = absurd (ground (arith, h))
start-Leads node_id (booted created) p h = absurd (ground (arith, h))

abbrev pub turned : Bool → Status
turned true = read_write
turned false = read_only

either_status : (b : Bool) → is_read_write (if b then read_write else read_only) ≡ b
either_status true = refl
either_status false = refl

handle_leader_change-Leads :
    (node_id leader term : ℕ) (p : Partition)
    → LeadsWhenWritable node_id p
    → LeadsWhenWritable node_id (handle_leader_change leader term node_id p).0
unfolding handle_leader_change
handle_leader_change-Leads node_id leader term p k = elim (Bool-cases (nat_beq p.leader leader)) [
  | inl e ↦ rw (handle_leader_change, e) k
  | inr e ↦
      rw (handle_leader_change, e)
        (λ h. let b = either_status (nat_beq leader node_id) in ground (arith, sym b ∙ h))
]

abbrev pub Keeps : Partition → Outcome (Partition × Nodes) → Type 0
Keeps p panic = Unit
Keeps p (ret r) = (r.0.leader ≡ p.leader) × (r.0.meta.status ≡ p.meta.status)

apply_member_change-Keeps :
    (change : ConfChange) (peer : ℕ) (replica : Replica) (nodes : Nodes) (p : Partition)
    → Keeps p (apply_member_change change peer replica p nodes)
unfolding apply_member_change
apply_member_change-Keeps add_node_change peer replica nodes p =
    elim (Bool-cases (has_node peer p.meta.replicas)) [
      | inl e ↦ rw (apply_member_change, e) (refl, refl)
      | inr e ↦ rw (apply_member_change, e) (refl, refl)
    ]
apply_member_change-Keeps remove_node_change peer replica nodes p = either p.meta.replicas
  where
    either :
        (rs : List Replica)
        → Keeps p (
            apply_member_change remove_node_change peer replica
              (record p { meta = record p.meta { replicas = rs } })
              nodes)
    either [] = tt
    either (r ∷ rs) = (refl, refl)
apply_member_change-Keeps other_change peer replica nodes p = (refl, refl)

close-Leads :
    (node_id : ℕ) (p : Partition) (rafts : List ℕ)
    → LeadsWhenWritable node_id p
    → LeadsWhenWritable node_id (close p rafts).0
unfolding close
close-Leads node_id p rafts k = elim (Bool-cases p.closed) [
  | inl e ↦ rw (close, e) k
  | inr e ↦ rw (close, e) (λ h. absurd (ground (arith, h)))
]

Runs-Leads : (node_id : ℕ) (p : Partition) → Runs node_id p → LeadsWhenWritable node_id p
Runs-Leads node_id p (starts boot meta) = start-Leads node_id boot (new_partition meta)
Runs-Leads node_id _ (changes_leader leader term p r) =
    handle_leader_change-Leads node_id leader term p (Runs-Leads node_id p r)
Runs-Leads node_id _ (changes_member change peer replica nodes nodes' p p' r e) =
    let kept : Keeps p (ret (p', nodes')) =
      subst (Keeps p) e (apply_member_change-Keeps change peer replica nodes p) in
    λ h. kept.0 ∙ Runs-Leads node_id p r (rw (sym kept.1) h)
Runs-Leads node_id _ (closes rafts p r) = close-Leads node_id p rafts (Runs-Leads node_id p r)

read_write_open : (s : Status) → is_read_write s ≡ true → is_closed_status s ≡ false
read_write_open invalid h = absurd (ground (arith, h))
read_write_open not_read h = absurd (ground (arith, h))
read_write_open read_only h = refl
read_write_open read_write h = refl
read_write_open splitting h = refl

check_readable-own :
    (node_id : ℕ) (p : Partition)
    → check_readable true node_id p ≡ none
    → (p.leader ≡ node_id) × (is_closed_status p.meta.status ≡ false)
unfolding check_readable
check_readable-own node_id p h = (ground (arith, h), ground (arith, h))

-- Whatever happens to a partition after its start: while it is open for writing its leader is this
-- node, a node other than 0 then also serves reads that ask for the leader, and reads that ask for
-- the leader are served by no other node and by no partition that is invalid or not read.
pub Runs-check_readable :
    (node_id : ℕ) (p : Partition)
    → node_id ≢ 0
    → Runs node_id p
    → LeadsWhenWritable node_id p
      × (is_read_write p.meta.status ≡ true → check_readable true node_id p ≡ none)
      × (check_readable true node_id p ≡ none
          → (p.leader ≡ node_id) × (is_closed_status p.meta.status ≡ false))
unfolding check_readable
Runs-check_readable node_id p z r =
    let leads = Runs-Leads node_id p r in
    (
      leads,
      λ h. ground (arith, leads h, z, read_write_open p.meta.status h),
      check_readable-own node_id p,
    )
