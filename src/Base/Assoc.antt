-- ===== src/Base/Assoc.antt =====
-- A Go map as an association list. `insert` keeps at most one entry for a key.
use mathlib.Core.Path.{◌≡◌, refl}
use mathlib.Core.Option.{Option, none, some}
use mathlib.Core.List.{List, [], ◌∷◌}
use native.Mathlib.Omega.{arith}
use baud.Base.Tests.{if◌then◌else◌}
use baud.Base.Eq.{Comparable, ◌==◌, ==_iff}

module _ {ℓ} {K V : Type ℓ} ⦃keys : Comparable K⦄ where
  unfoldable pub lookup : K → List (K × V) → Option V
  lookup key [] = none
  lookup key (entry ∷ rest) = if entry.0 == key then some entry.1 else lookup key rest

  unfoldable pub insert : K → V → List (K × V) → List (K × V)
  insert key value [] = (key, value) ∷ []
  insert key value (entry ∷ rest) =
      let later = insert key value rest in
      if entry.0 == key then (key, value) ∷ rest else entry ∷ later

  unfoldable pub remove : K → List (K × V) → List (K × V)
  remove key [] = []
  remove key (entry ∷ rest) =
      let others = remove key rest in if entry.0 == key then others else entry ∷ others

  -- No key has two entries.
  abbrev pub KeysDistinct : List (K × V) → Type ℓ
  KeysDistinct [] = Unit
  KeysDistinct (entry ∷ rest) = (lookup entry.0 rest ≡ none) × KeysDistinct rest

  module _ (key other : K) where
    pub lookup-insert :
        (value : V) (m : List (K × V))
        → lookup other (insert key value m) ≡ (if key == other then some value else lookup other m)
    unfolding lookup insert
    lookup-insert value [] = refl
    lookup-insert value ((at, old) ∷ rest) =
        ground (arith, lookup-insert value rest, ==_iff at other, ==_iff key other, ==_iff at key)

    pub lookup-remove :
        (m : List (K × V))
        → lookup other (remove key m) ≡ (if key == other then none else lookup other m)
    unfolding lookup remove
    lookup-remove [] = ground arith
    lookup-remove ((at, old) ∷ rest) =
        ground (arith, lookup-remove rest, ==_iff at other, ==_iff key other, ==_iff at key)

  pub insert-KeysDistinct :
      (key : K) (value : V) (m : List (K × V)) → KeysDistinct m → KeysDistinct (insert key value m)
  unfolding lookup insert
  insert-KeysDistinct key value [] d = (refl, tt)
  insert-KeysDistinct key value ((at, old) ∷ rest) d = ground (
    arith,
    lookup-insert key at value rest,
    insert-KeysDistinct key value rest,
    ==_iff at key,
    ==_iff key at,
  )
