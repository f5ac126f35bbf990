-- ===== src/ZoneMaster/PartitionTree.antt =====
-- zm/partition.go: `PartitionTree`, the partitions of a space by their slots, over
-- github.com/google/btree, whose operations are a parameter: a traversal is the list of the items
-- that it offers to its callback until that returns false. Slots are below 2 ^ 32.
pub mod Ranges
pub mod Searches
pub mod Cuts
pub mod Updates
pub mod Removals
pub mod Scans
pub mod Boundary
pub mod ListBtree
mod Tests
use baud.Base.{
  ℕ, suc, ◌+◌, ◌≡◌, Bool, true, false, not, ◌&&◌, ◌||◌, Option, none, some, ℤ, pos, negsuc, Outcome,
  ret, panic, List, [], ◌∷◌, reverse, map, select, length, ltb, leb, nat_beq, if◌then◌else◌,
}
use baud.ZoneMaster.Partition.{Partition}

-- The greater start slot comes first.
abbrev pub less : Partition → Partition → Bool
less p q = ltb q.start_slot p.start_slot

abbrev pub contains : Partition → ℕ → Bool
contains p slot = leb p.start_slot slot && ltb slot p.end_slot

pub record Btree : Type 1 where
  pub Tree : Type 0
  pub new : Tree
  pub len : Tree → ℕ
  pub replace_or_insert : Partition → Tree → Tree
  pub delete : Partition → Tree → Tree
  pub descend : Tree → List Partition
  pub ascend_greater_or_equal : Partition → Tree → List Partition
  pub descend_less_or_equal : Partition → Tree → List Partition

-- Each item before those that are less.
abbrev pub AllStartAfter : ℕ → List Partition → Type 0
AllStartAfter slot [] = Unit
AllStartAfter slot (p ∷ ps) = (ltb slot p.start_slot ≡ true) × AllStartAfter slot ps

abbrev pub IsDescending : List Partition → Type 0
IsDescending [] = Unit
IsDescending (p ∷ ps) = AllStartAfter p.start_slot ps × IsDescending ps

-- An item at its place, instead of one that is neither less nor greater.
abbrev pub place : Partition → List Partition → List Partition
place p [] = p ∷ []
place p (q ∷ ps) =
    let rest = place p ps in if less q p then p ∷ q ∷ ps else if less p q then q ∷ rest else p ∷ ps

-- What the documentation promises of the operations.
pub record IsBtree (bt : Btree) : Type 1 where
  pub descend-IsDescending : (t : bt.Tree) → IsDescending (bt.descend t)
  pub descend-new : bt.descend bt.new ≡ []
  pub descend-len : (t : bt.Tree) → bt.len t ≡ length (bt.descend t)
  pub descend-replace :
      (p : Partition) (t : bt.Tree) → bt.descend (bt.replace_or_insert p t) ≡ place p (bt.descend t)
  pub descend-delete :
      (p : Partition) (t : bt.Tree)
      → bt.descend (bt.delete p t) ≡ select (λ q. less p q || less q p) (bt.descend t)
  pub ascend_greater_or_equal_lem :
      (p : Partition) (t : bt.Tree)
      → bt.ascend_greater_or_equal p t ≡ reverse (select (λ q. not (less q p)) (bt.descend t))
  pub descend_less_or_equal_lem :
      (p : Partition) (t : bt.Tree)
      → bt.descend_less_or_equal p t ≡ select (λ q. not (less p q)) (bt.descend t)

-- The overlapping partitions that the callback of `update` gathers.
abbrev pub overlaps : Partition → List Partition → List Partition
overlaps rng [] = []
overlaps rng (over ∷ items) =
    let rest = overlaps rng items in if leb rng.end_slot over.start_slot then [] else over ∷ rest

-- The callback of `ascendScan`: it stops when the count reaches `num`, so never for 0.
abbrev pub scan_items : ℕ → ℕ → List Partition → List Partition
scan_items num count [] = []
scan_items num count (item ∷ items) =
    let rest = scan_items num (count + 1) items in
    item ∷ (if nat_beq (count + 1) num then [] else rest)

-- The loop of `multipleSearch`, after a partition that ends at a slot.
abbrev pub adjoining : ℕ → List Partition → List Partition
adjoining end_slot [] = []
adjoining end_slot (r ∷ results) =
    let rest = adjoining r.end_slot results in
    if not (nat_beq r.start_slot end_slot) then [] else r ∷ rest

abbrev pub first_range : List Partition → List Partition
first_range [] = []
first_range (r ∷ results) = r ∷ adjoining r.end_slot results

module _ (bt : Btree) where
  unfoldable pub find : Partition → bt.Tree → Option Partition
  find rng t = elim (bt.ascend_greater_or_equal rng t) [
    | [] ↦ none
    | result ∷ _ ↦ if contains result rng.start_slot then some result else none
  ]

  abbrev pub delete_all : List Partition → bt.Tree → bt.Tree
  delete_all [] t = t
  delete_all (item ∷ items) t = delete_all items (bt.delete item t)

  unfoldable pub update : Partition → bt.Tree → bt.Tree
  unfolding find
  update rng t =
      let result : Partition = elim (find rng t) [ none ↦ rng | some r ↦ r ] in
      bt.replace_or_insert rng (delete_all (overlaps rng (bt.descend_less_or_equal result t)) t)

  unfoldable pub remove_range : Partition → bt.Tree → bt.Tree
  unfolding find
  remove_range rng t = elim (find rng t) [
    | none ↦ t
    | some result ↦ if not (nat_beq result.id rng.id) then t else bt.delete result t
  ]

  -- The partition that only has a start slot.
  unfoldable pub search_slot : Partition → ℕ → bt.Tree → Option Partition
  unfolding find
  search_slot blank slot t = find (record blank { start_slot = slot }) t

  -- For a `num` that is not negative.
  unfoldable pub ascend_scan : Partition → ℕ → bt.Tree → List Partition
  unfolding find
  ascend_scan rng num t = elim (find rng t) [
    | none ↦ []
    | some result ↦ scan_items num 0 (bt.descend_less_or_equal result t)
  ]

  -- `num` is an int: `make` panics when it is negative.
  unfoldable pub multiple_search : Partition → ℕ → ℤ → bt.Tree → Outcome (List Partition)
  unfolding ascend_scan
  multiple_search blank slot (negsuc n) t = panic
  multiple_search blank slot (pos num) t =
      ret (first_range (ascend_scan (record blank { start_slot = slot }) num t))
