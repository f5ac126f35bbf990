-- ===== src/Base/Lists.antt =====
-- Lists measured and indexed by native numbers, and lists filtered by a Boolean test.
use Prim.Native.Nat.{ℕ, zero, suc, ◌+◌, ◌<◌}
use mathlib.Core.Path.{◌≡◌, refl, ap}
use mathlib.Core.Logic.{◌≢◌}
use mathlib.Core.Bool.{Bool}
use mathlib.Core.List.{List, [], ◌∷◌, ◌++◌}
use mathlib.Core.Option.{Option, none, some}
use native.Mathlib.Omega.{arith}
use baud.Base.Tests.{if◌then◌else◌}

module _ {ℓ} {A : Type ℓ} where
  abbrev pub length : List A → ℕ
  length [] = 0
  length (x ∷ xs) = suc (length xs)

  abbrev pub get_elem? : List A → ℕ → Option A
  get_elem? [] i = none
  get_elem? (x ∷ xs) zero = some x
  get_elem? (x ∷ xs) (suc i) = get_elem? xs i

  -- A write out of bounds changes nothing.
  abbrev pub set_elem : List A → ℕ → A → List A
  set_elem [] i v = []
  set_elem (x ∷ xs) zero v = v ∷ xs
  set_elem (x ∷ xs) (suc i) v = x ∷ set_elem xs i v

  abbrev pub replicate : ℕ → A → List A
  replicate zero a = []
  replicate (suc n) a = a ∷ replicate n a

  -- The elements that pass a test, in order.
  abbrev pub select : (A → Bool) → List A → List A
  select p [] = []
  select p (x ∷ xs) = let rest = select p xs in if p x then x ∷ rest else rest

module _ {ℓ} {A : Type ℓ} where
  pub length-append : (xs ys : List A) → length (xs ++ ys) ≡ length xs + length ys
  length-append [] ys = omega arith
  length-append (x ∷ xs) ys = omega (arith, length-append xs ys)

  pub length-replicate : (n : ℕ) (a : A) → length (replicate n a) ≡ n
  length-replicate zero a = refl
  length-replicate (suc n) a = ap suc (length-replicate n a)

  pub length-set_elem : (xs : List A) (i : ℕ) (v : A) → length (set_elem xs i v) ≡ length xs
  length-set_elem [] i v = refl
  length-set_elem (x ∷ xs) zero v = refl
  length-set_elem (x ∷ xs) (suc i) v = ap suc (length-set_elem xs i v)

  pub get_elem?-set_elem_self :
      (xs : List A) (i : ℕ) (v : A) → i < length xs → get_elem? (set_elem xs i v) i ≡ some v
  get_elem?-set_elem_self [] i v h = elim h [ ]
  get_elem?-set_elem_self (x ∷ xs) zero v h = refl
  get_elem?-set_elem_self (x ∷ xs) (suc i) v h = get_elem?-set_elem_self xs i v (omega arith)

  pub get_elem?-set_elem_ne :
      (xs : List A) {i j : ℕ} (v : A) → i ≢ j → get_elem? (set_elem xs i v) j ≡ get_elem? xs j
  get_elem?-set_elem_ne [] v h = refl
  get_elem?-set_elem_ne (x ∷ xs) {i = zero} {j = zero} v h = absurd (h refl)
  get_elem?-set_elem_ne (x ∷ xs) {i = zero} {j = suc j} v h = refl
  get_elem?-set_elem_ne (x ∷ xs) {i = suc i} {j = zero} v h = refl
  get_elem?-set_elem_ne (x ∷ xs) {i = suc i} {j = suc j} v h =
      get_elem?-set_elem_ne xs v (λ e. h (ap suc e))
