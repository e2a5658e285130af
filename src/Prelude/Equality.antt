-- ===== src/Prelude/Equality.antt =====
-- Python's `==` where it decides identity of values: a class with instances for whole integers,
-- optional values and texts.
use Prim.Native.Nat.{ℕ}
use Prim.Native.String.{String}
use mathlib.Core.Path.{◌≡◌, refl}
use mathlib.Core.Logic.{◌↔◌}
use mathlib.Core.Bool.{Bool, true, false, ◌||◌}
use mathlib.Core.Option.{Option, none, some}
use mathlib.Core.List.{List, [], ◌∷◌}
use native.Mathlib.Omega.{arith}
use text.Mathlib.Text.{◌==◌ as text_matches}
use text.Mathlib.TextEquality.{eq_iff}
use torq_pro.Prelude.Tests.{eqb}

-- Python's int: `negsuc n` is -(n + 1).
pub data ℤ : Type 0 where
  pos negsuc : ℕ → ℤ

abbrev pub int_matches : ℤ → ℤ → Bool
int_matches (pos a) (pos b) = eqb a b
int_matches (negsuc a) (negsuc b) = eqb a b
int_matches _ _ = false

pub int_matches_iff : (i j : ℤ) → (int_matches i j ≡ true) ↔ (i ≡ j)
int_matches_iff (pos a) (pos b) = (λ h. ground arith, λ h. ground arith)
int_matches_iff (pos a) (negsuc b) = (λ h. cc, λ h. cc)
int_matches_iff (negsuc a) (pos b) = (λ h. cc, λ h. cc)
int_matches_iff (negsuc a) (negsuc b) = (λ h. ground arith, λ h. ground arith)

-- The law says that the test is equality.
pub record HasEq {ℓ} (Value : Type ℓ) : Type ℓ where
  pub matches : Value → Value → Bool
  pub matches_iff : (left right : Value) → (matches left right ≡ true) ↔ (left ≡ right)

pub eqb-eq : (i j : ℕ) → (eqb i j ≡ true) ↔ (i ≡ j)
eqb-eq i j = (λ h. ground arith, λ h. ground arith)

instance abbrev pub nat_eq : HasEq ℕ
nat_eq = record { matches = eqb; matches_iff = eqb-eq }

instance abbrev pub int_eq : HasEq ℤ
int_eq = record { matches = int_matches; matches_iff = int_matches_iff }

module _ {ℓ} {Value : Type ℓ} ⦃e : HasEq Value⦄ where
  pub matches_refl : (v : Value) → e.matches v v ≡ true
  matches_refl v = (e.matches_iff v v).1 refl

  infix 50 ◌==◌
  abbrev pub ◌==◌ : Value → Value → Bool
  left == right = e.matches left right

  -- `v in vs`
  unfoldable pub contains : Value → List Value → Bool
  contains v [] = false
  contains v (w ∷ ws) = e.matches v w || contains v ws

  abbrev pub option_matches : Option Value → Option Value → Bool
  option_matches none none = true
  option_matches (some v) (some w) = e.matches v w
  option_matches _ _ = false

  pub option_matches_iff : (p q : Option Value) → (option_matches p q ≡ true) ↔ (p ≡ q)
  option_matches_iff none none = (λ h. refl, λ h. refl)
  option_matches_iff none (some w) = (λ h. cc, λ h. cc)
  option_matches_iff (some v) none = (λ h. cc, λ h. cc)
  option_matches_iff (some v) (some w) =
      (λ h. cc ((e.matches_iff v w).0 h), λ h. (e.matches_iff v w).1 (cc))

  instance abbrev pub option_eq : HasEq (Option Value)
  option_eq = record { matches = option_matches; matches_iff = option_matches_iff }

instance abbrev pub string_eq : HasEq String
string_eq = record { matches = text_matches; matches_iff = eq_iff }
