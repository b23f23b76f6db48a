-- ===== src/Common/Equality.antt =====
-- Decidable equality of keys as an instance: `===` on strings and numbers, and on string unions.
use Prim.Native.Nat.{ℕ}
use Prim.Native.String.{String}
use mathlib.Core.Path.{◌≡◌, refl}
use mathlib.Core.Logic.{◌↔◌}
use mathlib.Core.Bool.{Bool, true, false, ◌||◌}
use mathlib.Core.List.{List, [], ◌∷◌}
use text.Mathlib.Text.{◌==◌ as str_eq}
use text.Mathlib.TextEquality.{eq_iff}
use fortemi_react.Common.Tests.{nat_beq, nat_beq_iff}

-- A type whose values the source compares by `===`.
pub record Key {κ} (K : Type κ) : Type κ where
  pub is_same : K → K → Bool
  pub is_same_iff : (k j : K) → (is_same k j ≡ true) ↔ (k ≡ j)

instance abbrev pub string_eq : Key String
string_eq = record { is_same_iff = eq_iff; is_same = str_eq }

instance abbrev pub nat_eq : Key ℕ
nat_eq = record { is_same_iff = nat_beq_iff; is_same = nat_beq }

infix 50 ◌==◌
abbrev pub ◌==◌ {κ} : {K : Type κ} ⦃e : Key K⦄ → K → K → Bool
◌==◌ ⦃e⦄ k j = e.is_same k j

module _ {ℓ} {A : Type ℓ} ⦃e : Key A⦄ where
  pub ==_iff : (a b : A) → ((a == b) ≡ true) ↔ (a ≡ b)
  ==_iff a b = e.is_same_iff a b

  pub ==_refl : (a : A) → (a == a) ≡ true
  ==_refl a = (e.is_same_iff a a).1 refl

  -- Array.prototype.includes, Set.prototype.has
  abbrev pub includes : A → List A → Bool
  includes a [] = false
  includes a (x ∷ xs) = x == a || includes a xs
