-- ===== src/Memstore/Item.antt =====
-- engine/kernel/store/memstore/btreedb/btree.go: the items of the tree and their order.
-- `interface{}` is an option: `none` is the nil interface.
use baud.Base.{Bool, true, false, Option}
use baud.Base.Bytes.{Bytes, lt_bytes}

pub record DbItem (V : Type 0) : Type 0 where
  pub key : Bytes
  pub value : Option V

-- What the code hands to the tree as a `btree.Item`: an item, or one of the two limits.
pub data Item (V : Type 0) : Type 0 where
  db_item : DbItem V → Item V
  less_item greater_item : Item V

-- The `Less` methods of `lessItem`, `greaterItem` and `dbItem`. No nil `*dbItem` is ever handed
-- to the tree.
unfoldable pub less : {V : Type 0} → Item V → Item V → Bool
less less_item j = true
less greater_item j = false
less (db_item a) (db_item b) = lt_bytes a.key b.key
less (db_item a) less_item = false
less (db_item a) greater_item = true
