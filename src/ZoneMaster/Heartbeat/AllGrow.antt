-- ===== src/ZoneMaster/Heartbeat/AllGrow.antt =====
-- What a heartbeat leaves of the cluster.
use baud.Base.{
  ℕ, ◌≡◌, refl, sym, ◌∙◌, Bool, true, false, Bool-cases, inl, inr, none, some, Option-cases, List,
  [], ◌∷◌, nat_eq, Outcome, ret, panic, Outcome-cases, arith, ◌==◌,
}
use mathlib.Core.Path.{subst}
use baud.Base.Assoc.{lookup, insert, lookup-insert}
use baud.ZoneMaster.Partition.{Partition, PartitionInfo}
use baud.ZoneMaster.Heartbeat.{
  ProcessorEvent, Cluster, HeartbeatCode, err_suc, not_leader, ps_not_exists, handle_known,
  handle_info, handle_infos, ps_heartbeat,
}
use baud.ZoneMaster.Heartbeat.Grows.{
  Grows, Grows-refl, Grows-trans, AllAfter, IsReport, pick_replica_to_delete-returns,
  handle_known-After,
}

-- The second cluster has the same partitions, each later.
abbrev pub AllGrow : Cluster → Cluster → Type 0
AllGrow c d =
    (id : ℕ)
    → (lookup id c ≡ none → lookup id d ≡ none)
      × ((p : Partition)
          → lookup id c ≡ some p
          → (q : Partition) × (lookup id d ≡ some q) × Grows p q)

abbrev pub ClusterAfter : Cluster → Outcome (Cluster × List ProcessorEvent) → Type 0
ClusterAfter c panic = ⊥
ClusterAfter c (ret r) = AllGrow c r.0

AllGrow-refl : (c : Cluster) → AllGrow c c
AllGrow-refl c id = (λ e. e, λ p e. (p, e, Grows-refl p))

AllGrow-insert :
    (key : ℕ) (p q : Partition) (c : Cluster)
    → lookup key c ≡ some p
    → Grows p q
    → AllGrow c (insert key q c)
AllGrow-insert key p q c e g id = elim (Bool-cases (key == id)) [
  | inl b ↦
      let here : lookup id c ≡ some p = ground (arith, b, e) in
      let there : lookup id (insert key q c) ≡ some q =
        ground (arith, lookup-insert key id q c, b) in
      (
        λ n. absurd (ground (arith, n, here)),
        λ r n. (q, there, rw (unwrap_partition r p (sym n ∙ here)) g),
      )
  | inr b ↦
      let same : lookup id (insert key q c) ≡ lookup id c =
        ground (arith, lookup-insert key id q c, b) in
      (λ n. same ∙ n, λ r n. (r, same ∙ n, Grows-refl r))
]
  where
    unwrap_partition : (a b : Partition) → some a ≡ some b → a ≡ b
    unwrap_partition a b h = cc

handle_info-After :
    (info : PartitionInfo) (now : ℕ) (c : Cluster)
    → IsReport info
    → ClusterAfter c (handle_info info now c)
unfolding handle_info
handle_info-After info now c report = elim (Option-cases (lookup info.id c)) [
  | inl e ↦
      let (r, g) = pick_replica_to_delete-returns info report in
      rw (handle_info, e, g) (AllGrow-refl c)
  | inr (p, e) ↦ elim (Outcome-cases (handle_known info now p)) [
    | inl g ↦ absurd (subst (AllAfter p) g (handle_known-After info now p report))
    | inr (r, g) ↦
        let grows : Grows p r.0 = subst (AllAfter p) g (handle_known-After info now p report) in
        rw (handle_info, e, g) (AllGrow-insert info.id p r.0 c e grows)
  ]
]

AllGrow-trans : (c d e : Cluster) → AllGrow c d → AllGrow d e → AllGrow c e
AllGrow-trans c d e g h id = (
  λ n. (h id).0 ((g id).0 n),
  λ p n.
      let (q, m, a) = (g id).1 p n in let (r, k, b) = (h id).1 q m in (r, k, Grows-trans p q r a b),
)

abbrev pub AllReports : List (PartitionInfo × ℕ) → Type 0
AllReports [] = Unit
AllReports (info ∷ infos) = IsReport info.0 × AllReports infos

handle_infos-After :
    (infos : List (PartitionInfo × ℕ)) (c : Cluster)
    → AllReports infos
    → ClusterAfter c (handle_infos infos c)
unfolding handle_infos
handle_infos-After [] c reports = AllGrow-refl c
handle_infos-After ((info, now) ∷ infos) c reports =
    let known = handle_info-After info now c reports.0 in
    elim (Outcome-cases (handle_info info now c)) [
      | inl e ↦ absurd (subst (ClusterAfter c) e known)
      | inr (r, e) ↦
          let first : AllGrow c r.0 = subst (ClusterAfter c) e known in
          let others = handle_infos-After infos r.0 reports.1 in
          elim (Outcome-cases (handle_infos infos r.0)) [
            | inl g ↦ absurd (subst (ClusterAfter r.0) g others)
            | inr (s, g) ↦
                let rest : AllGrow r.0 s.0 = subst (ClusterAfter r.0) g others in
                rw (handle_infos, e, g) (AllGrow-trans c r.0 s.0 first rest)
          ]
    ]

-- A heartbeat with whatever a partition server says of any partitions, of each with a raft status when
-- it leads it and only then. It is answered; the cluster keeps each partition with its slots and gets
-- no new one; no configuration version goes back; and a partition whose leader is one of its replicas
-- keeps that.
pub ps_heartbeat-Grows :
    (mine known : Bool) (infos : List (PartitionInfo × ℕ)) (c : Cluster)
    → AllReports infos
    → (code : HeartbeatCode) × (d : Cluster) × (events : List ProcessorEvent) × (ps_heartbeat mine
          known infos c
        ≡ ret (code, d, events))
      × AllGrow c d
unfolding ps_heartbeat
ps_heartbeat-Grows false known infos c reports = (not_leader, c, [], refl, AllGrow-refl c)
ps_heartbeat-Grows true false infos c reports = (ps_not_exists, c, [], refl, AllGrow-refl c)
ps_heartbeat-Grows true true infos c reports =
    let after = handle_infos-After infos c reports in
    elim (Outcome-cases (handle_infos infos c)) [
      | inl e ↦ absurd (subst (ClusterAfter c) e after)
      | inr (r, e) ↦ (err_suc, r.0, r.1, rw (ps_heartbeat, e) refl, subst (ClusterAfter c) e after)
    ]
