-- ===== src/ZoneMaster/Caches/Named.antt =====
-- Names and ids belong together.
use baud.Base.{
  ℕ, ◌≡◌, refl, ap, sym, ◌∙◌, true, false, Bool-cases, inl, inr, Option, none, some, Option-cases,
  nat_eq, arith, ◌==◌, ==_iff, ==_refl,
}
use baud.Base.Bytes.{Bytes, bytes_eq}
use baud.Base.Assoc.{lookup, insert, remove, lookup-insert, lookup-remove}
use baud.ZoneMaster.Caches.{
  NamedItem, Cache, new_cache, Found, unknown_name, found_item, find_by_name, find_by_id, add_item,
  delete_db, delete_space,
}

-- The names under which ids come, one for each id and no two ids for one.
pub record IsNaming (name_of : ℕ → Bytes) : Type 0 where
  pub different : (i j : ℕ) → name_of i ≡ name_of j → i ≡ j

-- A cache of databases after some additions and deletions of databases with their names.
pub data DbRuns (name_of : ℕ → Bytes) : Cache → Type 0 where
  starts : DbRuns name_of new_cache
  adds :
      (item : NamedItem) (c : Cache)
      → item.name ≡ name_of item.id
      → DbRuns name_of c
      → DbRuns name_of (add_item item c)
  deletes :
      (item : NamedItem) (c : Cache)
      → item.name ≡ name_of item.id
      → DbRuns name_of c
      → DbRuns name_of (delete_db item c)

abbrev pub id_if : ℕ → Option NamedItem → Option ℕ
id_if id none = none
id_if id (some item) = some id

-- An id has its item under its name, or neither.
abbrev pub IsConsistent : (ℕ → Bytes) → Cache → Type 0
IsConsistent name_of c =
    (id : ℕ)
    → ((item : NamedItem)
        → lookup id c.items ≡ some item
        → (item.id ≡ id) × (item.name ≡ name_of id))
      × (lookup (name_of id) c.name2_ids ≡ id_if id (lookup id c.items))

unwrap : (a b : NamedItem) → some a ≡ some b → a ≡ b
unwrap a b h = cc

names_differ :
    (name_of : ℕ → Bytes) (i j : ℕ)
    → IsNaming name_of
    → (i == j) ≡ false
    → (name_of i == name_of j) ≡ false
names_differ name_of i j naming e = elim (Bool-cases (name_of i == name_of j)) [
  | inr h ↦ h
  | inl h ↦
      let same = naming.different i j ((==_iff (name_of i) (name_of j)).0 h) in
      absurd (ground (arith, e, same))
]

add_item-IsConsistent :
    (name_of : ℕ → Bytes) (item : NamedItem) (c : Cache)
    → IsNaming name_of
    → item.name ≡ name_of item.id
    → IsConsistent name_of c
    → IsConsistent name_of (add_item item c)
unfolding add_item
add_item-IsConsistent name_of item c naming own k id =
    let items = lookup-insert item.id id item c.items in
    let names = lookup-insert item.name (name_of id) item.id c.name2_ids in
    elim (Bool-cases (item.id == id)) [
      | inl b ↦
          let same : item.id ≡ id = ground (arith, b) in
          let name : (item.name == name_of id) ≡ true =
            (==_iff item.name (name_of id)).1 (own ∙ ap name_of same) in
          let here : lookup id (insert item.id item c.items) ≡ some item = items ∙ rw b refl in
          (
            λ found h.
                let new = unwrap item found (sym here ∙ h) in
                (rw (sym new) same, rw (sym new) (own ∙ ap name_of same)),
            names ∙ rw (name, here) (ap some same),
          )
      | inr b ↦
          let name : (item.name == name_of id) ≡ false =
            rw own (names_differ name_of item.id id naming b) in
          let here : lookup id (insert item.id item c.items) ≡ lookup id c.items =
            items ∙ rw b refl in
          (λ found h. (k id).0 found (sym here ∙ h), names ∙ rw (name, here) (k id).1)
    ]

delete_db-IsConsistent :
    (name_of : ℕ → Bytes) (item : NamedItem) (c : Cache)
    → IsNaming name_of
    → item.name ≡ name_of item.id
    → IsConsistent name_of c
    → IsConsistent name_of (delete_db item c)
unfolding delete_db
delete_db-IsConsistent name_of item c naming own k id =
    let items = lookup-remove item.id id c.items in
    let names = lookup-remove item.name (name_of id) c.name2_ids in
    elim (Bool-cases (item.id == id)) [
      | inl b ↦
          let same : item.id ≡ id = ground (arith, b) in
          let name : (item.name == name_of id) ≡ true =
            (==_iff item.name (name_of id)).1 (own ∙ ap name_of same) in
          let here : lookup id (remove item.id c.items) ≡ none = items ∙ rw b refl in
          (λ found h. absurd (ground (arith, here, h)), names ∙ rw (name, here) refl)
      | inr b ↦
          let name : (item.name == name_of id) ≡ false =
            rw own (names_differ name_of item.id id naming b) in
          let here : lookup id (remove item.id c.items) ≡ lookup id c.items = items ∙ rw b refl in
          (λ found h. (k id).0 found (sym here ∙ h), names ∙ rw (name, here) (k id).1)
    ]

DbRuns-IsConsistent :
    (name_of : ℕ → Bytes) (c : Cache) → IsNaming name_of → DbRuns name_of c → IsConsistent name_of c
unfolding lookup
DbRuns-IsConsistent name_of _ naming starts = λ id. (λ item h. absurd (ground (arith, h)), refl)
DbRuns-IsConsistent name_of _ naming (adds item c own r) =
    add_item-IsConsistent name_of item c naming own (DbRuns-IsConsistent name_of c naming r)
DbRuns-IsConsistent name_of _ naming (deletes item c own r) =
    delete_db-IsConsistent name_of item c naming own (DbRuns-IsConsistent name_of c naming r)

abbrev pub found_by : Option NamedItem → Found
found_by none = unknown_name
found_by (some item) = found_item item

-- A cache of databases after any additions and deletions, when no id changes its name and no two ids
-- share one. A search by the name of an id finds what a search by the id finds, which has the id and
-- the name, or nothing if that finds nothing; never is a name left without its database.
pub DbRuns-find_by_name :
    (name_of : ℕ → Bytes) (c : Cache) (id : ℕ)
    → IsNaming name_of
    → DbRuns name_of c
    → (find_by_name (name_of id) c ≡ found_by (find_by_id id c))
      × ((item : NamedItem)
          → find_by_id id c ≡ some item
          → (item.id ≡ id) × (item.name ≡ name_of id))
unfolding find_by_name find_by_id
DbRuns-find_by_name name_of c id naming r =
    let (own, named) = DbRuns-IsConsistent name_of c naming r id in
    elim (Option-cases (lookup id c.items)) [
      | inl e ↦ (rw (find_by_name, find_by_id, named, e) refl, own)
      | inr (item, e) ↦ (rw (find_by_name, find_by_id, named, e) (rw e refl), own)
    ]

-- A deleted space is unknown by its name and still found by its id.
pub delete_space_stays :
    (item old : NamedItem) (c : Cache)
    → find_by_id item.id c ≡ some old
    → (find_by_name old.name (delete_space item c) ≡ unknown_name)
      × (find_by_id item.id (delete_space item c) ≡ some old)
unfolding find_by_name find_by_id delete_space
delete_space_stays item old c h =
    let gone : lookup old.name (remove old.name c.name2_ids) ≡ none =
      lookup-remove old.name old.name c.name2_ids ∙ rw (==_refl old.name) refl in
    (rw (find_by_name, delete_space, h, gone) refl, rw (find_by_id, delete_space, h) h)
