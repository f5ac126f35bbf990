-- ===== src/ZoneMaster/Caches/Tests.antt =====
-- A small cache, and the theorem at a concrete input.
use baud.Base.{ℕ, ◌≡◌, refl, some, [], ◌∷◌, nat_eq}
use baud.Base.Bytes.{Bytes, bytes_eq}
use baud.Base.Assoc.{lookup, insert, remove}
use baud.ZoneMaster.Caches.{
  NamedItem, new_cache, found_item, find_by_name, find_by_id, add_item, delete_db,
}
use baud.ZoneMaster.Caches.Named.{IsNaming, starts, adds, deletes, DbRuns-find_by_name}

abbrev name_of : ℕ → Bytes
name_of id = id ∷ []

name_of-IsNaming : IsNaming name_of
name_of-IsNaming = record { different = λ i j h. cc }

abbrev db : ℕ → NamedItem
db id = record { id = id; name = name_of id }

-- Two databases are added, and one is deleted.
DbRuns-find_by_name_example :
    (find_by_name (name_of 4) (delete_db (db 3) (add_item (db 4) (add_item (db 3) new_cache)))
      ≡ found_item (db 4))
    × ((item : NamedItem)
        → find_by_id 4 (delete_db (db 3) (add_item (db 4) (add_item (db 3) new_cache))) ≡ some item
        → (item.id ≡ 4) × (item.name ≡ name_of 4))
unfolding find_by_id delete_db add_item lookup insert remove
DbRuns-find_by_name_example =
    DbRuns-find_by_name name_of (delete_db (db 3) (add_item (db 4) (add_item (db 3) new_cache))) 4
      name_of-IsNaming
      (deletes (db 3) (add_item (db 4) (add_item (db 3) new_cache)) refl
        (adds (db 4) (add_item (db 3) new_cache) refl (adds (db 3) new_cache refl starts)))
