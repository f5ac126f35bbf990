-- ===== src/ZoneMaster/PartitionTree/Boundary.antt =====
-- The router and the master of the zone at the end of a partition.
use baud.Base.{ℕ, ◌≡◌, ◌≢◌, ◌<◌, sym, ◌∙◌, true, Bool-cases, inl, inr, some, List, [], ◌∷◌, arith}
use mathlib.Core.Path.{subst}
use baud.Router.Space.{get_position}
use baud.Router.Space.Found.{get_position-linear_search}
use baud.ZoneMaster.Partition.{Partition}
use baud.ZoneMaster.PartitionTree.{contains, Btree, IsBtree, search_slot}
use baud.ZoneMaster.PartitionTree.Ranges.{IsDisjoint, find_slot}
use baud.ZoneMaster.PartitionTree.Updates.{search_slot-find_slot}
use baud.ZoneMaster.PartitionTree.Removals.{some_same}

-- The partition as the router keeps it.
abbrev pub routed : Partition → baud.Router.Space.Partition Partition
routed p = record { start_slot = p.start_slot; end_slot = p.end_slot; route = p }

find_slot-contains :
    (slot : ℕ) (r : Partition) (ps : List Partition)
    → find_slot slot ps ≡ some r
    → contains r slot ≡ true
find_slot-contains slot r [] h = absurd (ground (arith, h))
find_slot-contains slot r (p ∷ ps) h = elim (Bool-cases (contains p slot)) [
  | inl c ↦
      let same : p ≡ r = some_same p r (ground (arith, h, c)) in
      subst (λ x. contains x slot ≡ true) same c
  | inr c ↦ find_slot-contains slot r ps (ground (arith, h, c))
]

module _ (bt : Btree) (laws : IsBtree bt) where
  -- For any partition that has slots: a router that knows it alone finds it for its end slot, and the
  -- tree of the master, whatever it has that does not overlap, does not.
  pub boundary_disagrees :
      (p blank : Partition) (t : bt.Tree)
      → p.start_slot < p.end_slot
      → IsDisjoint 0 (bt.descend t)
      → (get_position p.end_slot (routed p ∷ []) ≡ some (routed p, 0))
        × (search_slot bt blank p.end_slot t ≢ some p)
  boundary_disagrees p blank t w d = (
    get_position-linear_search p.end_slot (routed p ∷ []) (omega arith, omega (arith, w), tt)
        ∙ ground (arith, w),
    λ h.
        let c =
          find_slot-contains p.end_slot p (bt.descend t)
            (sym (search_slot-find_slot bt laws blank p.end_slot t d) ∙ h) in
        ground (arith, c),
  )
