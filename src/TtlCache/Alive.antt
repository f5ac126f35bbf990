-- ===== src/TtlCache/Alive.antt =====
-- The cache as a map of the entries that are alive at a time.
use baud.Base.{
  ℕ, ◌+◌, ◌≡◌, ◌≤◌, refl, sym, ap, ◌∙◌, true, false, Bool-cases, inl, inr, Option, none, some,
  Option-cases, List, [], ◌∷◌, ltb, arith, Comparable, ◌==◌, ==_iff, if◌then◌else◌,
}
use baud.Base.Assoc.{lookup, lookup-insert, lookup-remove, KeysDistinct}
use baud.TtlCache.{LruNode, TtlCache, after_now, put_node, get_node, delete_node, get_all, refresh}

-- The value of an entry that is alive.
abbrev pub alive_value : {V : Type 0} → ℕ → Option (LruNode V) → Option V
alive_value t none = none
alive_value t (some node) = if ltb t node.dietime then some node.obj else none

module _ {K V : Type 0} ⦃keys : Comparable K⦄ where
  abbrev pub alive : TtlCache K V → ℕ → K → Option V
  alive c t key = alive_value t (lookup key c.cache)

  lookup-refresh :
      (key other : K) (obj : V) (now now' : ℕ) (c : TtlCache K V)
      → (key == other) ≡ false
      → lookup other (refresh key obj now now' c) ≡ lookup other c.cache
  lookup-refresh key other obj now now' c ne = elim (Option-cases (lookup key c.cache)) [
    | inl e ↦ rw (refresh, e) refl
    | inr (node, e) ↦ elim (Bool-cases (after_now now' node)) [
      | inl b ↦
          let fresh : LruNode V = record node { dietime = now + c.timeout; obj = obj } in
          rw (refresh, e, b) (ground (arith, lookup-insert key other fresh c.cache, ne))
      | inr b ↦ rw (refresh, e, b) refl
    ]
  ]

  lookup_same :
      (key other : K) (m : List (K × LruNode V))
      → (key == other) ≡ true
      → lookup other m ≡ lookup key m
  lookup_same key other m e = let h : key ≡ other = (==_iff key other).0 e in rw h refl

  -- After a Put its key has its value until the timeout is over, and every other key what it had.
  pub put_node-alive :
      (key other : K) (obj : V) (now now' t : ℕ) (c : TtlCache K V)
      → alive (put_node key obj now now' c) t other ≡ (
          if key == other
          then (if ltb t (now + c.timeout) then some obj else none)
          else alive c t other)
  unfolding put_node
  put_node-alive key other obj now now' t c =
      let node : LruNode V = record { obj = obj; createtime = now; dietime = now + c.timeout } in
      let written = lookup-insert key other node (refresh key obj now now' c) in
      elim (Bool-cases (key == other)) [
        | inl e ↦ rw (put_node, written, e) refl
        | inr e ↦ rw (put_node, written, e, lookup-refresh key other obj now now' c e) refl
      ]

  -- Get, whose two looks at the clock are in order, returns the value that is alive at the first, and
  -- afterwards every key has the value that it would have had, at the time of the second look and
  -- later.
  pub get_node-alive :
      (key other : K) (now now' t : ℕ) (c : TtlCache K V)
      → now ≤ now'
      → now' ≤ t
      → ((get_node key now now' c).0 ≡ alive c now key)
        × (alive (get_node key now now' c).1 t other ≡ alive c t other)
  unfolding get_node
  get_node-alive key other now now' t c h k = elim (Option-cases (lookup key c.cache)) [
    | inl e ↦ rw (get_node, e) (refl, refl)
    | inr (node, e) ↦ elim (Bool-cases (after_now now node)) [
      | inl b ↦ rw (get_node, e, b) (refl, refl)
      | inr b ↦
          let late : after_now now' node ≡ false = ground (arith, b, h) in
          let dead : ltb t node.dietime ≡ false = ground (arith, b, h, k) in
          let gone = lookup-remove key other c.cache in
          rw (get_node, e, b, late)
            (
              refl,
              elim (Bool-cases (key == other)) [
                | inl q ↦ rw (gone, q, lookup_same key other c.cache q, e, dead) refl
                | inr q ↦ rw (gone, q) refl
              ],
            )
    ]
  ]

  -- After a Delete its key is gone and every other key has what it had.
  pub delete_node-alive :
      (key other : K) (t : ℕ) (c : TtlCache K V)
      → alive (delete_node key c) t other ≡ (if key == other then none else alive c t other)
  unfolding delete_node
  delete_node-alive key other t c = elim (Option-cases (lookup key c.cache)) [
    | inl e ↦ elim (Bool-cases (key == other)) [
      | inl q ↦ rw (delete_node, e, q, lookup_same key other c.cache q, e) refl
      | inr q ↦ rw (delete_node, e, q) refl
    ]
    | inr (node, e) ↦
        let gone = lookup-remove key other c.cache in
        elim (Bool-cases (key == other)) [
          | inl q ↦ rw (delete_node, e, gone, q) refl
          | inr q ↦ rw (delete_node, e, gone, q) refl
        ]
  ]

  -- GetAll on entries of different keys takes away none that is alive: a key has what it had at the time
  -- at which the loop looked at it and later.
  pub get_all-alive :
      (clock : K → ℕ) (other : K) (t : ℕ) (m : List (K × LruNode V))
      → KeysDistinct m
      → clock other ≤ t
      → alive_value t (lookup other (get_all clock m).1) ≡ alive_value t (lookup other m)
  unfolding get_all lookup
  get_all-alive clock other t [] d h = refl
  get_all-alive clock other t ((at, node) ∷ m) d h =
      let rest = get_all-alive clock other t m d.1 h in
      elim (Bool-cases (at == other)) [
        | inl q ↦
            let same : at ≡ other = (==_iff at other).0 q in
            let none_left : lookup other m ≡ none = rw (sym same) d.0 in
            elim (Bool-cases (after_now (clock at) node)) [
              | inl b ↦ rw (get_all, b, q) refl
              | inr b ↦
                  let dead : ltb t node.dietime ≡ false = ground (arith, b, h, ap clock same) in
                  rw (get_all, b, q, dead) (rest ∙ rw none_left refl)
            ]
        | inr q ↦ elim (Bool-cases (after_now (clock at) node)) [
          | inl b ↦ rw (get_all, b, q) rest
          | inr b ↦ rw (get_all, b, q) rest
        ]
      ]
