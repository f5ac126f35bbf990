-- ===== src/PartitionServer/Server/Restart.antt =====
-- `restart`: what the server has afterwards.
use baud.Base.{
  ℕ, ◌+◌, ◌^◌, ◌≡◌, ◌≢◌, ◌≤◌, ◌<◌, refl, ap, sym, ◌∙◌, Bool, true, false, ◌||◌, Bool-cases, inl,
  inr, Option, none, some, Option-cases, List, [], ◌∷◌, nat_eq, nat_beq, arith, if◌then◌else◌, ◌==◌,
  map,
}
use baud.Base.Assoc.{lookup, insert, lookup-insert}
use baud.PartitionServer.Meta.{Meta}
use baud.PartitionServer.Resolver.Count.{count_node}
use baud.PartitionServer.Partition.{
  Partition, Boot, no_path, no_store, no_apply_id, no_raft_store, booted, new_partition, start,
}
use baud.PartitionServer.Server.{
  Server, do_partition_create, recover_partitions, close_all_range, do_start, restart, make_path,
  has_id, destroy_exclude_partition, is_invalid,
}
use baud.PartitionServer.Server.Used.{used, used-insert_new}
use baud.PartitionServer.Server.Counted.{HasRoom, start-meta, do_partition_create-IsCounted}
use baud.PartitionServer.Server.Steps.{Counted}
use baud.PartitionServer.Server.Closed.{
  close_all_range-Counted, close_all_range-empty, close_all_range-admin_event_ch,
}

-- The partition that the first answer under an id makes.
abbrev pub first_of : ℕ → List (Boot × Meta) → Option Partition
first_of id [] = none
first_of id ((boot, meta) ∷ metas) =
    let later = first_of id metas in
    if meta.id == id then some (start boot (new_partition meta)) else later

-- The replicas of the answers on a node.
abbrev pub expected : ℕ → List (Boot × Meta) → ℕ
expected n [] = 0
expected n (m ∷ metas) = count_node n m.1.replicas + expected n metas

abbrev pub or_else : Option Partition → Option Partition → Option Partition
or_else none later = later
or_else (some p) later = some p

do_partition_create-lookup :
    (boot : Boot) (meta : Meta) (s : Server) (id : ℕ)
    → lookup id (do_partition_create boot meta s).partitions
      ≡ or_else
          (lookup id s.partitions)
          (if meta.id == id then some (start boot (new_partition meta)) else none)
unfolding do_partition_create
do_partition_create-lookup boot meta s id = elim (Option-cases (lookup meta.id s.partitions)) [
  | inl e ↦
      let new = lookup-insert meta.id id (start boot (new_partition meta)) s.partitions in
      rw (do_partition_create, e) (ground (arith, new, e))
  | inr (p, e) ↦ rw (do_partition_create, e) (ground (arith, e))
]

recover_partitions-lookup :
    (metas : List (Boot × Meta)) (s : Server) (id : ℕ)
    → lookup id (recover_partitions metas s).partitions
      ≡ or_else (lookup id s.partitions) (first_of id metas)
unfolding recover_partitions
recover_partitions-lookup [] s id = ground arith
recover_partitions-lookup ((boot, meta) ∷ metas) s id =
    let rest = recover_partitions-lookup metas (do_partition_create boot meta s) id in
    ground (arith, rest, do_partition_create-lookup boot meta s id)

-- The counts stay below 2 ^ 31 whatever answers come in.
abbrev pub HasRoomFor : List (Boot × Meta) → Server → Type 0
HasRoomFor metas s = (n : ℕ) → n ≢ 0 → used n s.partitions + expected n metas < 2 ^ 31

do_partition_create-used :
    (boot : Boot) (meta : Meta) (s : Server) (n : ℕ)
    → used n (do_partition_create boot meta s).partitions
      ≤ used n s.partitions + count_node n meta.replicas
unfolding do_partition_create new_partition
do_partition_create-used boot meta s n = elim (Option-cases (lookup meta.id s.partitions)) [
  | inl e ↦
      let fresh = start boot (new_partition meta) in
      let same = ap (count_node n) (start-meta boot (new_partition meta)).0 in
      rw (do_partition_create, e)
        (omega (arith, used-insert_new n meta.id fresh s.partitions e, same))
  | inr (p, e) ↦ rw (do_partition_create, e) (omega arith)
]

do_partition_create-Counted :
    (boot : Boot) (meta : Meta) (s : Server)
    → HasRoom s.partitions meta.replicas
    → Counted s
    → Counted (do_partition_create boot meta s)
unfolding do_partition_create
do_partition_create-Counted boot meta s room c = elim (Option-cases (lookup meta.id s.partitions)) [
  | inl e ↦ do_partition_create-IsCounted boot meta s e room c
  | inr (p, e) ↦ rw (do_partition_create, e) c
]

recover_partitions-Counted :
    (metas : List (Boot × Meta)) (s : Server)
    → HasRoomFor metas s
    → Counted s
    → Counted (recover_partitions metas s)
unfolding recover_partitions
recover_partitions-Counted [] s room c = c
recover_partitions-Counted ((boot, meta) ∷ metas) s room c =
    recover_partitions-Counted metas (do_partition_create boot meta s)
      (λ n h.
        let a = room n h in let b = do_partition_create-used boot meta s n in omega (arith, a, b))
      (do_partition_create-Counted boot meta s (λ n h. let a = room n h in omega (arith, a)) c)

abbrev pub on_disk : ℕ → List ℕ → Bool
on_disk id [] = false
on_disk id (x ∷ disk) = nat_beq x id || on_disk id disk

abbrev pub metas_of : List (Boot × Meta) → List Meta
metas_of metas = map (λ m. m.1) metas

destroy_exclude_partition-keeps :
    (metas : List Meta) (id : ℕ) (disk : List ℕ)
    → on_disk id (destroy_exclude_partition metas disk) ≡ true
    → has_id id metas ≡ true
unfolding destroy_exclude_partition
destroy_exclude_partition-keeps metas id [] h = absurd (ground (arith, h))
destroy_exclude_partition-keeps metas id (x ∷ disk) h = elim (Bool-cases (has_id x metas)) [
  | inl e ↦ ground (arith, h, e, destroy_exclude_partition-keeps metas id disk)
  | inr e ↦ ground (arith, h, e, destroy_exclude_partition-keeps metas id disk)
]

make_path-disk :
    (boot : Boot) (new id : ℕ) (disk : List ℕ)
    → on_disk id (make_path boot new disk) ≡ true
    → (on_disk id disk || nat_beq new id) ≡ true
make_path-disk (no_path false) new id disk h = ground (arith, h)
make_path-disk (no_path true) new id disk h = ground (arith, h)
make_path-disk no_store new id disk h = ground (arith, h)
make_path-disk no_apply_id new id disk h = ground (arith, h)
make_path-disk no_raft_store new id disk h = ground (arith, h)
make_path-disk (booted created) new id disk h = ground (arith, h)

do_partition_create-disk :
    (boot : Boot) (meta : Meta) (s : Server) (id : ℕ)
    → on_disk id (do_partition_create boot meta s).disk ≡ true
    → (on_disk id s.disk || nat_beq meta.id id) ≡ true
unfolding do_partition_create
do_partition_create-disk boot meta s id h = elim (Option-cases (lookup meta.id s.partitions)) [
  | inl e ↦
      let a : (do_partition_create boot meta s).disk ≡ make_path boot meta.id s.disk =
        rw (do_partition_create, e) refl in
      make_path-disk boot meta.id id s.disk (rw (sym a) h)
  | inr (p, e) ↦
      let a : (do_partition_create boot meta s).disk ≡ s.disk = rw (do_partition_create, e) refl in
      let b : on_disk id s.disk ≡ true = rw (sym a) h in ground (arith, b)
]

recover_partitions-disk :
    (metas : List (Boot × Meta)) (s : Server) (id : ℕ)
    → on_disk id (recover_partitions metas s).disk ≡ true
    → (on_disk id s.disk || has_id id (metas_of metas)) ≡ true
unfolding recover_partitions
recover_partitions-disk [] s id h = ground (arith, h)
recover_partitions-disk ((boot, meta) ∷ metas) s id h =
    let rest = recover_partitions-disk metas (do_partition_create boot meta s) id h in
    ground (arith, rest, do_partition_create-disk boot meta s id)

-- Every partition that is not invalid has a directory.
abbrev pub AreOnDisk : Server → Type 0
AreOnDisk s =
    (id : ℕ) (p : Partition)
    → lookup id s.partitions ≡ some p
    → is_invalid p.meta.status ≡ false
    → on_disk id s.disk ≡ true

make_path-old :
    (boot : Boot) (new id : ℕ) (disk : List ℕ)
    → on_disk id disk ≡ true
    → on_disk id (make_path boot new disk) ≡ true
make_path-old (no_path false) new id disk h = h
make_path-old (no_path true) new id disk h = ground (arith, h)
make_path-old no_store new id disk h = ground (arith, h)
make_path-old no_apply_id new id disk h = ground (arith, h)
make_path-old no_raft_store new id disk h = ground (arith, h)
make_path-old (booted created) new id disk h = ground (arith, h)

make_path-new :
    (boot : Boot) (id : ℕ) (p : Partition) (disk : List ℕ)
    → is_invalid (start boot p).meta.status ≡ false
    → on_disk id (make_path boot id disk) ≡ true
unfolding start
make_path-new (no_path made) id p disk h = absurd (ground (arith, h))
make_path-new no_store id p disk h = absurd (ground (arith, h))
make_path-new no_apply_id id p disk h = absurd (ground (arith, h))
make_path-new no_raft_store id p disk h = absurd (ground (arith, h))
make_path-new (booted created) id p disk h = ground arith

do_partition_create-AreOnDisk :
    (boot : Boot) (meta : Meta) (s : Server)
    → AreOnDisk s
    → AreOnDisk (do_partition_create boot meta s)
unfolding do_partition_create
do_partition_create-AreOnDisk boot meta s all id p h v =
    elim (Option-cases (lookup meta.id s.partitions)) [
      | inl e ↦
          let fresh = start boot (new_partition meta) in
          let at = lookup-insert meta.id id fresh s.partitions in
          let disk : (do_partition_create boot meta s).disk ≡ make_path boot meta.id s.disk =
            rw (do_partition_create, e) refl in
          let known : lookup id (insert meta.id fresh s.partitions) ≡ some p =
            sym (rw (do_partition_create, e) refl) ∙ h in
          rw disk (elim (Bool-cases (meta.id == id)) [
            | inl b ↦
                let picked : some fresh ≡ some p =
                  sym (at ∙ ap (λ c. if c then some fresh else lookup id s.partitions) b) ∙ known in
                let same : fresh ≡ p = cc in
                let here : id ≡ meta.id = ground (arith, b) in
                let valid = ap (λ (q : Partition). is_invalid q.meta.status) same ∙ v in
                rw here (make_path-new boot meta.id (new_partition meta) s.disk valid)
            | inr b ↦
                let old =
                  sym (at ∙ ap (λ c. if c then some fresh else lookup id s.partitions) b) ∙ known in
                make_path-old boot meta.id id s.disk (all id p old v)
          ])
      | inr (q, e) ↦
          let disk : (do_partition_create boot meta s).disk ≡ s.disk =
            rw (do_partition_create, e) refl in
          rw disk (all id p (sym (rw (do_partition_create, e) refl) ∙ h) v)
    ]

recover_partitions-AreOnDisk :
    (metas : List (Boot × Meta)) (s : Server) → AreOnDisk s → AreOnDisk (recover_partitions metas s)
unfolding recover_partitions
recover_partitions-AreOnDisk [] s all = all
recover_partitions-AreOnDisk ((boot, meta) ∷ metas) s all =
    recover_partitions-AreOnDisk metas (do_partition_create boot meta s)
      (do_partition_create-AreOnDisk boot meta s all)

recover_partitions-admin_event_ch :
    (metas : List (Boot × Meta)) (s : Server)
    → (recover_partitions metas s).admin_event_ch ≡ s.admin_event_ch
unfolding recover_partitions do_partition_create
recover_partitions-admin_event_ch [] s = refl
recover_partitions-admin_event_ch ((boot, meta) ∷ metas) s =
    let rest = recover_partitions-admin_event_ch metas (do_partition_create boot meta s) in
    elim (Option-cases (lookup meta.id s.partitions)) [
      | inl e ↦ rest ∙ rw (do_partition_create, e) refl
      | inr (p, e) ↦ rest ∙ rw (do_partition_create, e) refl
    ]

-- A server without partitions takes those of the master.
recovers :
    (metas : List (Boot × Meta)) (s : Server) (disk : List ℕ)
    → s.partitions ≡ []
    → s.disk ≡ destroy_exclude_partition (metas_of metas) disk
    → Counted s
    → ((n : ℕ) → n ≢ 0 → expected n metas < 2 ^ 31)
    → let t = recover_partitions metas s in
      ((id : ℕ) → lookup id t.partitions ≡ first_of id metas)
      × Counted t
      × ((id : ℕ) → on_disk id t.disk ≡ true → has_id id (metas_of metas) ≡ true)
      × AreOnDisk t
unfolding lookup
recovers metas s disk empty kept c room = (
  λ id. recover_partitions-lookup metas s id ∙ rw empty refl,
  recover_partitions-Counted metas s (λ n h. let a = room n h in rw empty (omega (arith, a))) c,
  λ id h.
      let either = recover_partitions-disk metas s id h in
      let old = destroy_exclude_partition-keeps (metas_of metas) id disk in
      ground (arith, either, kept, old),
  recover_partitions-AreOnDisk metas s (λ id p h v.
      let no : none ≡ some p = rw (sym (ap (lookup id) empty)) h in absurd (ground (arith, no))),
)

-- A restart in which the master answers with some partitions, under the conditions that the resolver
-- of the server counts the replicas of its partitions before it (which it does not after a creation
-- over an invalid partition) and that the answer has less than 2 ^ 31 replicas on each node. The server then has the partitions
-- of the answer and no other, of several with one id the first; its resolver counts their replicas;
-- it is not stopping, no event waits, on its disk there is no directory but those of the partitions
-- of the answer, and each of its partitions that is not invalid has its directory there.
pub restart-recovers :
    (node_id : ℕ) (metas : List (Boot × Meta)) (s : Server)
    → Counted s
    → ((n : ℕ) → n ≢ 0 → expected n metas < 2 ^ 31)
    → let t = restart node_id metas s in
      ((id : ℕ) → lookup id t.partitions ≡ first_of id metas)
      × Counted t
      × (t.stopping ≡ false)
      × (t.admin_event_ch ≡ [])
      × ((id : ℕ) → on_disk id t.disk ≡ true → has_id id (metas_of metas) ≡ true)
      × AreOnDisk t
unfolding restart do_start
restart-recovers node_id metas s c room =
    let closed = close_all_range (record s { stopping = true; admin_event_ch = [] }) in
    let named = record closed {
      node_id = node_id;
      rafts = if nat_beq closed.node_id node_id then closed.rafts else [];
      disk = destroy_exclude_partition (metas_of metas) closed.disk;
    } in
    let empty = close_all_range-empty (record s { stopping = true; admin_event_ch = [] }) c.keyed in
    let counted = close_all_range-Counted (record s { stopping = true; admin_event_ch = [] }) c in
    let (found, sound, kept, held) = recovers metas named closed.disk empty refl counted room in
    let waits =
      recover_partitions-admin_event_ch metas named
      ∙ close_all_range-admin_event_ch (record s { stopping = true; admin_event_ch = [] }) in
    (found, sound, refl, waits, kept, held)
