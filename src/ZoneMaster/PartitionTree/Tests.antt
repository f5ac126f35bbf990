-- ===== src/ZoneMaster/PartitionTree/Tests.antt =====
-- A small tree, and the theorems at concrete inputs.
use baud.Base.{
  ℕ, ◌≡◌, ◌≢◌, ◌≤◌, ◌<◌, refl, none, some, List, [], ◌∷◌, arith, length, false, pos, ret,
}
use baud.PartitionServer.Meta.{not_read}
use baud.Router.Space.{get_position}
use baud.ZoneMaster.Partition.{Partition}
use baud.ZoneMaster.PartitionTree.{search_slot, update, remove_range, multiple_search, IsDescending}
use baud.ZoneMaster.PartitionTree.Ranges.{IsDisjoint}
use baud.ZoneMaster.PartitionTree.Updates.{update-search_slot}
use baud.ZoneMaster.PartitionTree.Removals.{remove_range-search_slot}
use baud.ZoneMaster.PartitionTree.Scans.{first, IsRun, AllIn, multiple_search-IsRun}
use baud.ZoneMaster.PartitionTree.Boundary.{routed, boundary_disagrees}
use baud.ZoneMaster.PartitionTree.ListBtree.{list_btree, list_btree-IsBtree}

abbrev part : ℕ → ℕ → ℕ → Partition
part id start end = record {
  id = id;
  start_slot = start;
  end_slot = end;
  replicas = [];
  status = not_read;
  epoch = record { conf_version = 1; version = 1 };
  leader = none;
  task_flag = false;
  task_timeout = 0;
  last_heartbeat = 0;
}

abbrev three : List Partition
three = part 1 0 10 ∷ part 2 10 20 ∷ part 3 30 40 ∷ []

abbrev tree : (ps : List Partition) × IsDescending ps
tree = (three, ((refl, (refl, tt)), ((refl, tt), (tt, tt))))

tree-IsDisjoint : IsDisjoint 0 three
tree-IsDisjoint =
    (omega arith, omega arith, (omega arith, omega arith, (omega arith, omega arith, tt)))

-- The new partition takes the place of the second.
update-search_slot_example :
    IsDisjoint 0 (update list_btree (part 4 15 25) tree).0
    × (search_slot list_btree (part 0 0 0) 12 (update list_btree (part 4 15 25) tree) ≡ none)
unfolding search_slot
update-search_slot_example =
    update-search_slot list_btree list_btree-IsBtree (part 4 15 25) (part 0 0 0) 12 tree
      (omega arith) tree-IsDisjoint

remove_range-search_slot_example :
    IsDisjoint 0 (remove_range list_btree (part 2 10 20) tree).0
    × (search_slot list_btree (part 0 0 0) 12 (remove_range list_btree (part 2 10 20) tree) ≡ none)
unfolding search_slot
remove_range-search_slot_example =
    remove_range-search_slot list_btree list_btree-IsBtree (part 2 10 20) (part 0 0 0) 12 tree
      tree-IsDisjoint

multiple_search-IsRun_example :
    (rs : List Partition) × (multiple_search list_btree (part 0 0 0) 5 (pos 10) tree ≡ ret rs)
    × (first rs ≡ some (part 1 0 10))
    × IsRun rs
    × AllIn (λ r. search_slot list_btree (part 0 0 0) r.start_slot tree ≡ some r) rs
    × (0 < 10 → length rs ≤ 10)
unfolding search_slot
multiple_search-IsRun_example =
    multiple_search-IsRun list_btree list_btree-IsBtree (part 0 0 0) 5 10 tree tree-IsDisjoint

boundary_disagrees_example :
    (get_position 20 (routed (part 2 10 20) ∷ []) ≡ some (routed (part 2 10 20), 0))
    × (search_slot list_btree (part 0 0 0) 20 tree ≢ some (part 2 10 20))
boundary_disagrees_example =
    boundary_disagrees list_btree list_btree-IsBtree (part 2 10 20) (part 0 0 0) tree (omega arith)
      tree-IsDisjoint
