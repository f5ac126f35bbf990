-- ===== src/ZoneMaster/Caches.antt =====
-- zm/db.go and zm/space.go: the databases of a cluster and the spaces of a database, by id and by
-- name. What a lock guards is one step. An item is what the caches read of a database or a space.
pub mod Named
mod Tests
use baud.Base.{ℕ, Bool, true, false, Option, none, some, List, [], ◌∷◌, map, nat_eq}
use baud.Base.Bytes.{Bytes, bytes_eq}
use baud.Base.Assoc.{lookup, insert, remove}

pub record NamedItem : Type 0 where
  pub id : ℕ
  pub name : Bytes

pub record Cache : Type 0 where
  pub items : List (ℕ × NamedItem)
  pub name2_ids : List (Bytes × ℕ)

abbrev pub new_cache : Cache
new_cache = record { items = []; name2_ids = [] }

-- What a search by name comes to: no id, an id without an item, which the log calls "never happened",
-- or an item.
pub data Found : Type 0 where
  unknown_name not_consistent : Found
  found_item : NamedItem → Found

unfoldable pub find_by_name : Bytes → Cache → Found
find_by_name name c = elim (lookup name c.name2_ids) [
  | none ↦ unknown_name
  | some id ↦ elim (lookup id c.items) [ none ↦ not_consistent | some item ↦ found_item item ]
]

unfoldable pub find_by_id : ℕ → Cache → Option NamedItem
find_by_id id c = lookup id c.items

unfoldable pub add_item : NamedItem → Cache → Cache
add_item item c = record {
  items = insert item.id item c.items;
  name2_ids = insert item.name item.id c.name2_ids;
}

unfoldable pub delete_db : NamedItem → Cache → Cache
delete_db item c = record {
  items = remove item.id c.items;
  name2_ids = remove item.name c.name2_ids;
}

-- The space stays among the items.
unfoldable pub delete_space : NamedItem → Cache → Cache
delete_space item c = elim (lookup item.id c.items) [
  | none ↦ c
  | some old ↦ record c { name2_ids = remove old.name c.name2_ids }
]

unfoldable pub get_all_items : Cache → List NamedItem
get_all_items c = map (λ entry. entry.1) c.items
