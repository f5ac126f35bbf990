-- ===== src/PartitionServer/Partition/Write/Served.antt =====
-- Which requests a partition serves.
use baud.Base.{
  ℕ, ◌≡◌, ◌≢◌, refl, Bool, true, false, inl, inr, Option, none, Option-cases, List, Result, ok, err,
  arith,
}
use baud.Base.Bytes.{Bytes}
use baud.PartitionServer.Engine.{Engine}
use baud.PartitionServer.Partition.{Partition, check_readable, is_closed_status}
use baud.PartitionServer.Partition.Writable.{Runs, is_read_write, Runs-check_readable}
use baud.PartitionServer.Partition.Write.{ResponseUnion, get_internal, bulk_internal, WriteError}

bulk_internal-ok :
    (outcome : Result (WriteError × Bool) (List ResponseUnion)) (resps : List ResponseUnion)
    (p : Partition)
    → bulk_internal outcome p ≡ ok resps
    → (is_closed_status p.meta.status ≡ false) × (outcome ≡ ok resps)
unfolding bulk_internal
bulk_internal-ok (err (e, done)) resps p h = absurd (ground (arith, h))
bulk_internal-ok (ok others) resps p h = (ground (arith, h), ground (arith, h))

module _ {S B D : Type 0} (engine : Engine S B D) where
  get_internal-none :
      (node_id : ℕ) (ended : Option Bool) (doc_id : Bytes) (p : Partition) (s : S)
      → (get_internal engine node_id ended doc_id p s).1 ≡ none
      → (check_readable true node_id p ≡ none) × (ended ≡ none)
  unfolding get_internal
  get_internal-none node_id ended doc_id p s h =
      elim (Option-cases (check_readable true node_id p)) [
        | inl e ↦ elim (Option-cases ended) [
          | inl g ↦ (e, g)
          | inr (deadline, g) ↦ absurd (ground (arith, h, e, g))
        ]
        | inr (error, e) ↦ absurd (ground (arith, h, e))
      ]

  -- A partition of a node other than 0, whatever happened to it since its start. It answers a bulk
  -- write only while it is neither invalid nor not read and with what raft answers; it gives a
  -- document without an error only while its leader is this node, and not once the context has
  -- ended; while it is open for writing its leader is this node, and until the context ends the
  -- document is what the engine has.
  pub Runs-served :
      (node_id : ℕ) (p : Partition) (outcome : Result (WriteError × Bool) (List ResponseUnion))
      (ended : Option Bool) (doc_id : Bytes) (s : S)
      → node_id ≢ 0
      → Runs node_id p
      → ((resps : List ResponseUnion)
          → bulk_internal outcome p ≡ ok resps
          → (is_closed_status p.meta.status ≡ false) × (outcome ≡ ok resps))
        × ((get_internal engine node_id ended doc_id p s).1 ≡ none
            → (p.leader ≡ node_id) × (is_closed_status p.meta.status ≡ false) × (ended ≡ none))
        × (is_read_write p.meta.status ≡ true
            → (p.leader ≡ node_id)
              × (get_internal engine node_id none doc_id p s
                  ≡ (engine.get_document doc_id s, none)))
  unfolding get_internal
  Runs-served node_id p outcome ended doc_id s z r =
      let (leads, serves, own) = Runs-check_readable node_id p z r in
      (
        λ resps h. bulk_internal-ok outcome resps p h,
        λ h.
            let (e, g) = get_internal-none node_id ended doc_id p s h in
            let (mine, opened) = own e in (mine, opened, g),
        λ h. let e = serves h in (leads h, rw (get_internal, e) refl),
      )
