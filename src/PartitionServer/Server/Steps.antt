-- ===== src/PartitionServer/Server/Steps.antt =====
-- What can happen to a server, one event after the other.
use baud.Base.{
  ℕ, ◌≡◌, refl, sym, ◌∙◌, Bool, true, false, Bool-cases, inl, inr, none, some, Option-cases, List,
  nat_eq, if◌then◌else◌, arith, ret, Outcome-cases,
}
use baud.Base.Assoc.{lookup, insert}
use baud.PartitionServer.Meta.{Replica, Meta}
use baud.PartitionServer.Partition.{
  Partition, Boot, close, handle_leader_change, ConfChange, apply_member_change,
}
use baud.PartitionServer.Server.{
  Server, Event, create_partition_request, delete_partition_request, do_admin_event,
  do_partition_delete, is_invalid, member_change, leader_change, handle_fatal_event, trigger,
  request_admin,
}
use baud.PartitionServer.Server.Counted.{
  IsCounted, HasRoom, IsSound, same-IsCounted, do_partition_create-IsCounted,
  do_partition_delete-IsCounted,
}
use baud.PartitionServer.Server.Members.{applied-Counted}

pub data Step (s s' : Server) : Type 0 where
  -- A partition is created that the server does not have.
  creates :
      (boot : Boot) (meta : Meta)
      → lookup meta.id s.partitions ≡ none
      → HasRoom s.partitions meta.replicas
      → s' ≡ do_admin_event boot (create_partition_request meta) s
      → Step s s'
  -- A partition is created again that the server has and that is not invalid.
  creates_again :
      (boot : Boot) (meta : Meta) (p : Partition)
      → lookup meta.id s.partitions ≡ some p
      → is_invalid p.meta.status ≡ false
      → s' ≡ do_admin_event boot (create_partition_request meta) s
      → Step s s'
  deletes :
      (boot : Boot) (id : ℕ) → s' ≡ do_admin_event boot (delete_partition_request id) s → Step s s'
  changes_leader : (id leader term : ℕ) → s' ≡ leader_change id leader term s → Step s s'
  fails : (id : ℕ) → s' ≡ handle_fatal_event id s → Step s s'
  requests : (event : Event) (code : ℕ) → request_admin event s ≡ some (code, s') → Step s s'
  changes_member :
      (id : ℕ) (change : ConfChange) (peer : ℕ) (replica : Replica)
      → ((p : Partition)
          → lookup id s.partitions ≡ some p
          → IsSound change peer replica p s.partitions)
      → member_change id change peer replica s ≡ ret s'
      → Step s s'

pub data Reach (s : Server) : Server → Type 0 where
  here : Reach s s
  next : (t u : Server) → Reach s t → Step t u → Reach s u

abbrev pub Counted : Server → Type 0
Counted s = IsCounted s.partitions s.nodes

either_way : (b : Bool) (s t : Server) → Counted s → Counted t → Counted (if b then s else t)
either_way true s t c d = c
either_way false s t c d = d

creates-Counted :
    (boot : Boot) (meta : Meta) (s : Server)
    → lookup meta.id s.partitions ≡ none
    → HasRoom s.partitions meta.replicas
    → Counted s
    → Counted (do_admin_event boot (create_partition_request meta) s)
unfolding do_admin_event
creates-Counted boot meta s e room c = elim (Bool-cases s.stopping) [
  | inl b ↦ rw (do_admin_event, b) c
  | inr b ↦ rw (do_admin_event, b, e) (do_partition_create-IsCounted boot meta s e room c)
]

again-Counted :
    (boot : Boot) (meta : Meta) (p : Partition) (s : Server)
    → lookup meta.id s.partitions ≡ some p
    → is_invalid p.meta.status ≡ false
    → Counted s
    → Counted (do_admin_event boot (create_partition_request meta) s)
unfolding do_admin_event
again-Counted boot meta p s e v c = elim (Bool-cases s.stopping) [
  | inl b ↦ rw (do_admin_event, b) c
  | inr b ↦ rw (do_admin_event, b, e, v) c
]

deletes-Counted :
    (boot : Boot) (id : ℕ) (s : Server)
    → Counted s
    → Counted (do_admin_event boot (delete_partition_request id) s)
unfolding do_admin_event
deletes-Counted boot id s c =
    either_way s.stopping s (trigger (do_partition_delete id s)) c
      (do_partition_delete-IsCounted id s c)

handle_leader_change-meta :
    (leader term node_id : ℕ) (p : Partition)
    → ((handle_leader_change leader term node_id p).0.meta.replicas ≡ p.meta.replicas)
      × ((handle_leader_change leader term node_id p).0.meta.id ≡ p.meta.id)
unfolding handle_leader_change
handle_leader_change-meta leader term node_id p = ground arith

leader_change-Counted :
    (id leader term : ℕ) (s : Server) → Counted s → Counted (leader_change id leader term s)
unfolding leader_change
leader_change-Counted id leader term s c = elim (Option-cases (lookup id s.partitions)) [
  | inl e ↦ rw (leader_change, e) c
  | inr (p, e) ↦
      let r = handle_leader_change leader term s.node_id p in
      let kept =
        same-IsCounted id p r.0 s.partitions s.nodes e
          (handle_leader_change-meta leader term s.node_id p).0
          (handle_leader_change-meta leader term s.node_id p).1 c in
      elim (Bool-cases r.1) [
        | inl b ↦ rw (leader_change, e, b) kept
        | inr b ↦ rw (leader_change, e, b) kept
      ]
]

close-meta :
    (p : Partition) (rafts : List ℕ)
    → ((close p rafts).0.meta.replicas ≡ p.meta.replicas) × ((close p rafts).0.meta.id ≡ p.meta.id)
unfolding close
close-meta p rafts = ground arith

handle_fatal_event-Counted : (id : ℕ) (s : Server) → Counted s → Counted (handle_fatal_event id s)
unfolding handle_fatal_event
handle_fatal_event-Counted id s c = elim (Option-cases (lookup id s.partitions)) [
  | inl e ↦ rw (handle_fatal_event, e) c
  | inr (p, e) ↦
      rw (handle_fatal_event, e)
        (same-IsCounted id p (close p s.rafts).0 s.partitions s.nodes e (close-meta p s.rafts).0
          (close-meta p s.rafts).1 c)
]

request_admin-Counted :
    (event : Event) (code : ℕ) (s s' : Server)
    → request_admin event s ≡ some (code, s')
    → (s'.partitions ≡ s.partitions) × (s'.nodes ≡ s.nodes)
unfolding request_admin
request_admin-Counted event code s s' h = ground (arith, h)

member_change-Counted :
    (id : ℕ) (change : ConfChange) (peer : ℕ) (replica : Replica) (p : Partition) (s s' : Server)
    → lookup id s.partitions ≡ some p
    → IsSound change peer replica p s.partitions
    → member_change id change peer replica s ≡ ret s'
    → Counted s
    → Counted s'
unfolding member_change
member_change-Counted id change peer replica p s s' e sound h c =
    elim (Outcome-cases (apply_member_change change peer replica p s.nodes)) [
      | inl f ↦ absurd (ground (arith, h, e, f))
      | inr ((q, nodes), f) ↦
          let a : ret s' ≡ ret (record s { partitions = insert id q s.partitions; nodes = nodes }) =
            sym h ∙ rw (member_change, e, f) refl in
          let b : s' ≡ record s { partitions = insert id q s.partitions; nodes = nodes } = cc in
          rw b (applied-Counted id change peer replica p q s.partitions s.nodes nodes e sound f c)
    ]

no_partition-same :
    (id : ℕ) (change : ConfChange) (peer : ℕ) (replica : Replica) (s s' : Server)
    → lookup id s.partitions ≡ none
    → member_change id change peer replica s ≡ ret s'
    → s' ≡ s
unfolding member_change
no_partition-same id change peer replica s s' e h =
    let a : ret s' ≡ ret s = sym h ∙ rw (member_change, e) refl in cc

Step-Counted : (s s' : Server) → Step s s' → Counted s → Counted s'
Step-Counted s s' (creates boot meta e room h) c = rw h (creates-Counted boot meta s e room c)
Step-Counted s s' (creates_again boot meta p e v h) c = rw h (again-Counted boot meta p s e v c)
Step-Counted s s' (deletes boot id h) c = rw h (deletes-Counted boot id s c)
Step-Counted s s' (changes_leader id leader term h) c =
    rw h (leader_change-Counted id leader term s c)
Step-Counted s s' (fails id h) c = rw h (handle_fatal_event-Counted id s c)
Step-Counted s s' (requests event code h) c =
    let (a, b) = request_admin-Counted event code s s' h in rw (a, b) c
Step-Counted s s' (changes_member id change peer replica sound h) c =
    elim (Option-cases (lookup id s.partitions)) [
      | inl e ↦ rw (no_partition-same id change peer replica s s' e h) c
      | inr (p, e) ↦ member_change-Counted id change peer replica p s s' e (sound p e) h c
    ]

-- From a server whose resolver counts the replicas of its partitions, by any sequence of these events:
-- creations of partitions that it does not have, and of partitions that it has and that are not
-- invalid (a creation over an invalid partition is left out, since the counts are wrong after it),
-- deletions, changes of leaders, failures, requests, and changes of members; under the conditions that
-- new replicas keep every count below 2 ^ 31 and that a replica that is removed is a member. The
-- resolver then counts, for every node but the number 0, the replicas on it, and keeps no node without
-- any; no two partitions have an id.
pub Reach-Counted : (s s' : Server) → Reach s s' → Counted s → Counted s'
Reach-Counted s s' here c = c
Reach-Counted s s' (next t u r step) c = Step-Counted t u step (Reach-Counted s t r c)
