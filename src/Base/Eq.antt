-- ===== src/Base/Eq.antt =====
-- What Go calls comparable: the keys of a map, with their test of equality.
use Prim.Native.Nat.{ℕ}
use mathlib.Core.Path.{◌≡◌, refl}
use mathlib.Core.Logic.{◌↔◌}
use mathlib.Core.Bool.{Bool, true}
use baud.Base.Tests.{nat_beq, nat_beq_iff}

pub record Comparable {ℓ} (K : Type ℓ) : Type ℓ where
  pub equal : K → K → Bool
  pub equal_iff : (k j : K) → (equal k j ≡ true) ↔ (k ≡ j)

module _ {ℓ} {K : Type ℓ} ⦃keys : Comparable K⦄ where
  infix 50 ◌==◌
  abbrev pub ◌==◌ : K → K → Bool
  k == j = keys.equal k j

  -- The law, with the instance found.
  pub ==_iff : (k j : K) → ((k == j) ≡ true) ↔ (k ≡ j)
  ==_iff k j = keys.equal_iff k j

  pub ==_refl : (k : K) → (k == k) ≡ true
  ==_refl k = (keys.equal_iff k k).1 refl

instance abbrev pub nat_eq : Comparable ℕ
nat_eq = record { equal = λ m n. nat_beq m n; equal_iff = λ m n. nat_beq_iff m n }
