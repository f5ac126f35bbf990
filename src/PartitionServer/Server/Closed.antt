-- ===== src/PartitionServer/Server/Closed.antt =====
-- `closeAllRange`: no partition is left, and no reference of one.
use baud.Base.{
  ℕ, ◌-◌, ◌≡◌, refl, Bool-cases, inl, inr, none, some, Option-cases, [], ◌∷◌, nat_eq, arith, ◌==◌,
}
use baud.Base.Assoc.{lookup, remove, lookup-remove}
use baud.PartitionServer.Resolver.{delete_nodes}
use baud.PartitionServer.Resolver.Count.{refs, CountsPositive, delete_nodes-counts}
use baud.PartitionServer.Partition.{Partition, close}
use baud.PartitionServer.Server.{Server, close_all, close_all_range}
use baud.PartitionServer.Server.Used.{Partitions, used, IsKeyed}
use baud.PartitionServer.Server.Steps.{Counted}

no_entries : (ps : Partitions) → ((id : ℕ) → lookup id ps ≡ none) → ps ≡ []
unfolding lookup
no_entries [] h = refl
no_entries (entry ∷ ps) h = absurd (ground (arith, h entry.0))

close_all-none :
    (entries : Partitions) (s : Server) (id : ℕ)
    → lookup id s.partitions ≡ none
    → lookup id (close_all entries s).partitions ≡ none
unfolding close_all
close_all-none [] s id h = h
close_all-none ((key, p) ∷ entries) s id h =
    close_all-none entries _ id (ground (arith, lookup-remove p.meta.id id s.partitions, h))

close_all-gone :
    (entries : Partitions) (s : Server) (id : ℕ) (q : Partition)
    → IsKeyed entries
    → lookup id entries ≡ some q
    → lookup id (close_all entries s).partitions ≡ none
unfolding close_all lookup
close_all-gone [] s id q k h = absurd (ground (arith, h))
close_all-gone ((key, p) ∷ entries) s id q k h = elim (Bool-cases (key == id)) [
  | inl b ↦
      close_all-none entries _ id (ground (arith, lookup-remove p.meta.id id s.partitions, k.0, b))
  | inr b ↦ close_all-gone entries _ id q k.1 (ground (arith, h, b))
]

-- No partition is left.
pub close_all_range-empty :
    (s : Server) → IsKeyed s.partitions → (close_all_range s).partitions ≡ []
unfolding close_all_range
close_all_range-empty s k = no_entries (close_all s.partitions s).partitions (λ id.
    elim (Option-cases (lookup id s.partitions)) [
      | inl e ↦ close_all-none s.partitions s id e
      | inr (p, e) ↦ close_all-gone s.partitions s id p k e
    ])

-- The loop takes the replicas of its entries from the counts.
close_all-counts :
    (entries : Partitions) (s : Server)
    → CountsPositive s.nodes
    → CountsPositive (close_all entries s).nodes
      × ((n : ℕ) → refs n (close_all entries s).nodes ≡ refs n s.nodes - used n entries)
unfolding close_all
close_all-counts [] s c = (c, λ n. omega arith)
close_all-counts ((key, p) ∷ entries) s c =
    let gone = delete_nodes-counts p.meta.replicas s.nodes c in
    let t : Server = record s {
      rafts = (close p s.rafts).1;
      partitions = remove p.meta.id s.partitions;
      nodes = delete_nodes p.meta.replicas s.nodes;
    } in
    let rest = close_all-counts entries t gone.0 in (rest.0, λ n. omega (arith, rest.1 n, gone.1 n))

pub close_all_range-Counted : (s : Server) → Counted s → Counted (close_all_range s)
unfolding close_all_range
close_all_range-Counted s c =
    let empty = close_all_range-empty s c.keyed in
    let counts = close_all-counts s.partitions s c.positive in
    record {
      distinct = rw empty tt;
      keyed = rw empty tt;
      positive = counts.0;
      counted = λ n h. rw empty (omega (arith, counts.1 n, c.counted n h));
    }

close_all-admin_event_ch :
    (entries : Partitions) (s : Server) → (close_all entries s).admin_event_ch ≡ s.admin_event_ch
unfolding close_all
close_all-admin_event_ch [] s = refl
close_all-admin_event_ch (entry ∷ entries) s = close_all-admin_event_ch entries _

pub close_all_range-admin_event_ch :
    (s : Server) → (close_all_range s).admin_event_ch ≡ s.admin_event_ch
unfolding close_all_range
close_all_range-admin_event_ch s = close_all-admin_event_ch s.partitions s
