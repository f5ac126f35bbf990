-- ===== src/TtlCache/Tests.antt =====
-- A small cache, and the theorems at concrete inputs.
use baud.Base.{ℕ, ◌≡◌, none, [], ◌∷◌, arith, nat_eq}
use baud.Base.Assoc.{lookup}
use baud.TtlCache.{LruNode, TtlCache, get_node}
use baud.TtlCache.Alive.{alive, get_node-alive}

abbrev node : LruNode ℕ
node = record { obj = 70; createtime = 0; dietime = 10 }

abbrev one_entry : TtlCache ℕ ℕ
one_entry = record { timeout = 10; cache = (7, node) ∷ [] }

get_node-alive_example :
    ((get_node 7 10 11 one_entry).0 ≡ none)
    × (alive (get_node 7 10 11 one_entry).1 12 7 ≡ alive one_entry 12 7)
unfolding lookup
get_node-alive_example = get_node-alive 7 7 10 11 12 one_entry (omega arith) (omega arith)
