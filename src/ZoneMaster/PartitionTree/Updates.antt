-- ===== src/ZoneMaster/PartitionTree/Updates.antt =====
-- What the tree finds after an update and after a removal.
use baud.Base.{
  ℕ, ◌≡◌, ◌<◌, ap, sym, ◌∙◌, not, inl, inr, some, Option-cases, select, arith, if◌then◌else◌,
}
use baud.ZoneMaster.Partition.{Partition}
use baud.ZoneMaster.PartitionTree.{
  contains, place, Btree, IsBtree, find, overlaps, delete_all, update, search_slot,
}
use baud.ZoneMaster.PartitionTree.Ranges.{
  IsDisjoint, IsDisjoint-select, find_slot, overlap, unless_overlap, find_slot-select,
  select-IsFree, place-IsDisjoint, find_slot-place,
}
use baud.ZoneMaster.PartitionTree.Searches.{find-find_slot}
use baud.ZoneMaster.PartitionTree.Cuts.{descend-delete_all, begin_at, select-overlaps, misses}

module _ (bt : Btree) (laws : IsBtree bt) where
  pub search_slot-find_slot :
      (blank : Partition) (slot : ℕ) (t : bt.Tree)
      → IsDisjoint 0 (bt.descend t)
      → search_slot bt blank slot t ≡ find_slot slot (bt.descend t)
  unfolding search_slot
  search_slot-find_slot blank slot t d =
      find-find_slot bt laws (record blank { start_slot = slot }) 0 t d

  -- The items after an update that begins to delete at a partition.
  updated_from :
      (rng result : Partition) (t : bt.Tree)
      → rng.start_slot < rng.end_slot
      → IsDisjoint 0 (bt.descend t)
      → result.start_slot ≡ begin_at rng (find_slot rng.start_slot (bt.descend t))
      → bt.descend (
          bt.replace_or_insert rng
            (delete_all bt (overlaps rng (bt.descend_less_or_equal result t)) t))
        ≡ place rng (select (λ p. not (overlap rng p)) (bt.descend t))
  updated_from rng result t w d e =
      laws.descend-replace rng _
      ∙ ap (place rng) (
          descend-delete_all bt laws _ t
          ∙ ap (λ os. select (misses (overlaps rng os)) (bt.descend t))
              (laws.descend_less_or_equal_lem result t)
          ∙ select-overlaps rng result.start_slot 0 (bt.descend t) w d e)

  descend-update :
      (rng : Partition) (t : bt.Tree)
      → rng.start_slot < rng.end_slot
      → IsDisjoint 0 (bt.descend t)
      → bt.descend (update bt rng t) ≡ place rng (select (λ p. not (overlap rng p)) (bt.descend t))
  unfolding update
  descend-update rng t w d =
      let found = find-find_slot bt laws rng 0 t d in
      elim (Option-cases (find bt rng t)) [
        | inl e ↦ rw (update, e) (updated_from rng rng t w d (ap (begin_at rng) (sym e ∙ found)))
        | inr (r, e) ↦ rw (update, e) (updated_from rng r t w d (ap (begin_at rng) (sym e ∙ found)))
      ]

  -- For any tree that meets the documentation, whose partitions have slots and do not overlap, and a
  -- partition that has slots. After an update with it the partitions do not overlap either; a search
  -- finds it for its slots, and for the others what it found before, unless that overlaps it.
  pub update-search_slot :
      (rng blank : Partition) (slot : ℕ) (t : bt.Tree)
      → rng.start_slot < rng.end_slot
      → IsDisjoint 0 (bt.descend t)
      → IsDisjoint 0 (bt.descend (update bt rng t))
        × (search_slot bt blank slot (update bt rng t) ≡ (
            if contains rng slot
            then some rng
            else unless_overlap rng (search_slot bt blank slot t)))
  update-search_slot rng blank slot t w d =
      let kept = select (λ p. not (overlap rng p)) (bt.descend t) in
      let after = descend-update rng t w d in
      let kept_disjoint = IsDisjoint-select (λ p. not (overlap rng p)) 0 (bt.descend t) d in
      let free = select-IsFree rng (bt.descend t) in
      let disjoint : IsDisjoint 0 (bt.descend (update bt rng t)) =
        rw after (place-IsDisjoint rng 0 kept w (omega arith) free kept_disjoint) in
      let before = search_slot-find_slot blank slot t d in
      (
        disjoint,
        search_slot-find_slot blank slot (update bt rng t) disjoint
            ∙ ap (find_slot slot) after
            ∙ find_slot-place rng 0 slot kept w free kept_disjoint
            ∙ ap (λ o. if contains rng slot then some rng else o)
                (find_slot-select rng 0 slot (bt.descend t) d
                  ∙ ap (unless_overlap rng) (sym before)),
      )
