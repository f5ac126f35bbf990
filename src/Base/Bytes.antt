-- ===== src/Base/Bytes.antt =====
-- Byte slices as lists of numbers, and `bytes.Compare`.
use Prim.Native.Nat.{ℕ, compare, Ordering}
use mathlib.Core.Path.{◌≡◌, refl}
use mathlib.Core.Logic.{◌↔◌}
use mathlib.Core.Bool.{Bool, true, false, ◌&&◌}
use mathlib.Core.List.{List, [], ◌∷◌}
use native.Mathlib.Omega.{arith}
use baud.Base.Tests.{nat_beq}
use baud.Base.Eq.{Comparable}

abbrev pub Bytes : Type 0
Bytes = List ℕ

-- `bytes.Compare`: -1, 0 and 1 are `lt`, `eq` and `gt`.
unfoldable pub compare_bytes : Bytes → Bytes → Ordering
compare_bytes [] [] = Ordering.eq
compare_bytes [] (b ∷ bs) = Ordering.lt
compare_bytes (a ∷ as') [] = Ordering.gt
compare_bytes (a ∷ as') (b ∷ bs) =
    let rest = compare_bytes as' bs in
    elim (compare a b) [
      | Ordering.lt ↦ Ordering.lt
      | Ordering.gt ↦ Ordering.gt
      | Ordering.eq ↦ rest
    ]

-- The tests `bytes.Compare(a, b) < 0`, `== 0` and `bytes.HasPrefix`.
unfoldable pub lt_bytes : Bytes → Bytes → Bool
lt_bytes a b = elim (compare_bytes a b) [ Ordering.lt ↦ true | _ ↦ false ]

abbrev pub eq_bytes : Bytes → Bytes → Bool
eq_bytes [] [] = true
eq_bytes [] (b ∷ bs) = false
eq_bytes (a ∷ as') [] = false
eq_bytes (a ∷ as') (b ∷ bs) = nat_beq a b && eq_bytes as' bs

unfoldable pub has_prefix : Bytes → Bytes → Bool
has_prefix s [] = true
has_prefix [] (p ∷ ps) = false
has_prefix (a ∷ s) (p ∷ ps) = nat_beq a p && has_prefix s ps

eq_bytes→eq : (a b : Bytes) → eq_bytes a b ≡ true → a ≡ b
eq_bytes→eq [] [] h = refl
eq_bytes→eq [] (b ∷ bs) h = cc
eq_bytes→eq (a ∷ as') [] h = cc
eq_bytes→eq (a ∷ as') (b ∷ bs) h = ground (arith, eq_bytes→eq as' bs)

eq_bytes_refl : (a : Bytes) → eq_bytes a a ≡ true
eq_bytes_refl [] = refl
eq_bytes_refl (a ∷ as') = ground (arith, eq_bytes_refl as')

pub eq_bytes_iff : (a b : Bytes) → (eq_bytes a b ≡ true) ↔ (a ≡ b)
eq_bytes_iff a b = (eq_bytes→eq a b, λ e. rw e (eq_bytes_refl b))

instance abbrev pub bytes_eq : Comparable Bytes
bytes_eq = record { equal = eq_bytes; equal_iff = eq_bytes_iff }

-- The order of byte slices is a strict total order, and its ties are equations.
pub lt_bytes_irrefl : (a : Bytes) → lt_bytes a a ≡ false
unfolding lt_bytes compare_bytes
lt_bytes_irrefl [] = refl
lt_bytes_irrefl (a ∷ as') = ground (arith, lt_bytes_irrefl as')

pub lt_bytes_trans :
    (a b c : Bytes) → lt_bytes a b ≡ true → lt_bytes b c ≡ true → lt_bytes a c ≡ true
unfolding lt_bytes compare_bytes
lt_bytes_trans [] (b ∷ bs) (c ∷ cs) h k = refl
lt_bytes_trans (a ∷ as') (b ∷ bs) (c ∷ cs) h k = ground (arith, lt_bytes_trans as' bs cs)
lt_bytes_trans a b c h k = ground arith

pub lt_bytes_asymm : (a b : Bytes) → lt_bytes a b ≡ true → lt_bytes b a ≡ false
unfolding lt_bytes compare_bytes
lt_bytes_asymm [] (b ∷ bs) h = refl
lt_bytes_asymm (a ∷ as') (b ∷ bs) h = ground (arith, lt_bytes_asymm as' bs)
lt_bytes_asymm a b h = ground arith

pub lt_bytes_total : (a b : Bytes) → lt_bytes a b ≡ false → lt_bytes b a ≡ false → a ≡ b
unfolding lt_bytes compare_bytes
lt_bytes_total [] [] h k = refl
lt_bytes_total (a ∷ as') (b ∷ bs) h k = ground (arith, lt_bytes_total as' bs)
lt_bytes_total a b h k = ground arith

-- A slice is not above what it is a prefix of.
pub has_prefix-le : (s p : Bytes) → has_prefix s p ≡ true → lt_bytes s p ≡ false
unfolding has_prefix lt_bytes compare_bytes
has_prefix-le [] [] h = refl
has_prefix-le (a ∷ s) (p ∷ ps) h = ground (arith, has_prefix-le s ps)
has_prefix-le s p h = ground arith
