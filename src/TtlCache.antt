-- ===== src/TtlCache.antt =====
-- util/ttlcache/cache.go: a map whose entries die after a time.
-- Times and durations are natural numbers, and every reading of the clock is an argument. Calls run
-- one after the other.
pub mod Alive
mod Tests
use baud.Base.{
  ℕ, ◌+◌, Bool, true, false, Option, none, some, List, [], ◌∷◌, ltb, Comparable, if◌then◌else◌,
}
use baud.Base.Assoc.{lookup, insert, remove}

pub record LruNode (V : Type 0) : Type 0 where
  pub obj : V
  pub createtime : ℕ
  pub dietime : ℕ

pub record TtlCache (K V : Type 0) : Type 0 where
  pub timeout : ℕ
  pub cache : List (K × LruNode V)

-- `dietime.After(now)`.
abbrev pub after_now : {V : Type 0} → ℕ → LruNode V → Bool
after_now now node = ltb now node.dietime

module _ {K V : Type 0} where
  unfoldable pub new_ttl_cache : ℕ → TtlCache K V
  new_ttl_cache timeout = record { timeout = timeout; cache = [] }

  -- The loop of `GetAll` over the entries in the order that `range` yields them; `clock` is the time
  -- at which the loop looks at a key. The values, and the entries that are left.
  unfoldable pub get_all : (K → ℕ) → List (K × LruNode V) → List V × List (K × LruNode V)
  get_all clock [] = ([], [])
  get_all clock ((key, node) ∷ entries) =
      let (values, left) = get_all clock entries in
      if after_now (clock key) node then (node.obj ∷ values, (key, node) ∷ left) else (values, left)

module _ {K V : Type 0} ⦃keys : Comparable K⦄ where
  -- An entry that is alive is written before it is replaced.
  abbrev pub refresh : K → V → ℕ → ℕ → TtlCache K V → List (K × LruNode V)
  refresh key obj now now' c = elim (lookup key c.cache) [
    | none ↦ c.cache
    | some node ↦
        if after_now now' node
        then insert key (record node { dietime = now + c.timeout; obj = obj }) c.cache
        else c.cache
  ]

  unfoldable pub put_node : K → V → ℕ → ℕ → TtlCache K V → TtlCache K V
  put_node key obj now now' c = record c {
    cache =
        insert key (record { obj = obj; createtime = now; dietime = now + c.timeout })
          (refresh key obj now now' c);
  }

  -- The second look, at `now'` under the write lock, after a first at `now`.
  unfoldable pub get_node : K → ℕ → ℕ → TtlCache K V → Option V × TtlCache K V
  get_node key now now' c = elim (lookup key c.cache) [
    | none ↦ (none, c)
    | some node ↦
        if after_now now node
        then (some node.obj, c)
        else if after_now now' node
        then (some node.obj, c)
        else (none, record c { cache = remove key c.cache })
  ]

  unfoldable pub delete_node : K → TtlCache K V → TtlCache K V
  delete_node key c = elim (lookup key c.cache) [
    | none ↦ c
    | some node ↦ record c { cache = remove key c.cache }
  ]
