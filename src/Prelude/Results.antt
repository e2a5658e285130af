-- ===== src/Prelude/Results.antt =====
-- A call that may raise: the value, or the exception.
use mathlib.Core.Path.{◌≡◌, refl}
use mathlib.Core.Logic.{◌⊎◌, inl, inr}
use mathlib.Core.Bool.{Bool, true, false}

pub data Result {ℓ κ} (E : Type ℓ) (A : Type κ) : Type (ℓ ⊔ κ) where
  err : E → Result E A
  ok : A → Result E A

module _ {ℓ κ} {E : Type ℓ} {A : Type κ} where
  pub Result-cases : (r : Result E A) → ((a : A) × (r ≡ ok a)) ⊎ ((e : E) × (r ≡ err e))
  Result-cases (ok value) = inl (value, refl)
  Result-cases (err raised) = inr (raised, refl)

  pub ok-injective : {v w : A} → ◌≡◌ {A = Result E A} (ok v) (ok w) → v ≡ w
  ok-injective h = cc

  pub err-injective : {d e : E} → ◌≡◌ {A = Result E A} (err d) (err e) → d ≡ e
  err-injective h = cc

-- `if not test: raise e`
abbrev pub guard {ℓ} : {E : Type ℓ} → Bool → E → Result E (Unit {0})
guard false raised = err raised
guard true _ = ok tt

module _ {ℓ κ μ} {E : Type ℓ} {A : Type κ} {B : Type μ} where
  infixl 5 ◌>>=◌ ◌>>◌
  abbrev pub ◌>>=◌ : Result E A → (A → Result E B) → Result E B
  err raised >>= _ = err raised
  ok value >>= next = next value

  abbrev pub ◌>>◌ : Result E A → Result E B → Result E B
  first >> second = first >>= λ _. second

  -- A chain that returned has a first call that returned.
  pub bind-ok :
      (first : Result E A) (next : A → Result E B) (b : B)
      → (first >>= next) ≡ ok b
      → (a : A) × (first ≡ ok a) × (next a ≡ ok b)
  bind-ok (err raised) next b h = cc
  bind-ok (ok value) next b h = (value, refl, h)
