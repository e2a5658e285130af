-- ===== src/Prelude/Orders.antt =====
-- Predicates on the elements of a list and on its pairs, and what keeps them.
use mathlib.Core.Path.{◌≡◌, refl, ap, subst}
use mathlib.Core.Logic.{inl, inr}
use mathlib.Core.Bool.{Bool}
use mathlib.Core.Option.{Option, none, some}
use mathlib.Core.List.{List, [], ◌∷◌, ◌++◌, map}
use torq_pro.Prelude.Tests.{Bool-cases}
use torq_pro.Prelude.Lists.{All, filter, find}

module _ {ℓ} {A : Type ℓ} where
  pub some-inj : (x y : A) → ◌≡◌ {A = Option A} (some x) (some y) → x ≡ y
  some-inj x y e = cc

  -- Every element stands in `R` to every later one.
  abbrev pub Ordered {κ} : (A → A → Type κ) → List A → Type (ℓ ⊔ κ)
  Ordered R [] = Unit
  Ordered R (x ∷ xs) = All (R x) xs × Ordered R xs

  pub All-map {κ μ} :
      (P : A → Type κ) (Q : A → Type μ)
      → ((a : A) → P a → Q a)
      → (xs : List A) → All P xs
      → All Q xs
  All-map P Q f [] h = tt
  All-map P Q f (x ∷ xs) h = (f x h.0, All-map P Q f xs h.1)

  pub All-both {κ μ} :
      (P : A → Type κ) (Q : A → Type μ)
      → (xs : List A) → All P xs
      → All Q xs
      → All (λ x. P x × Q x) xs
  All-both P Q [] p q = tt
  All-both P Q (x ∷ xs) p q = ((p.0, q.0), All-both P Q xs p.1 q.1)

  pub Ordered-map {κ μ ν} :
      (P : A → Type κ) (R : A → A → Type μ) (S : A → A → Type ν)
      → ((a b : A) → P a → P b → R a b → S a b)
      → (xs : List A) → All P xs
      → Ordered R xs
      → Ordered S xs
  Ordered-map P R S f [] ps h = tt
  Ordered-map P R S f (x ∷ xs) ps h = (pair xs ps.1 h.0, Ordered-map P R S f xs ps.1 h.1)
    where
      pair : (ys : List A) → All P ys → All (R x) ys → All (S x) ys
      pair [] q r = tt
      pair (y ∷ ys) q r = (f x y ps.0 q.0 r.0, pair ys q.1 r.1)

  pub All-append {κ} : (P : A → Type κ) (xs ys : List A) → All P xs → All P ys → All P (xs ++ ys)
  All-append P [] ys p q = q
  All-append P (x ∷ xs) ys p q = (p.0, All-append P xs ys p.1 q)

  -- Two ordered lists of which each element of the first stands before all of the second.
  pub Ordered-append {κ} :
      (R : A → A → Type κ) (xs ys : List A)
      → Ordered R xs
      → Ordered R ys
      → All (λ x. All (R x) ys) xs
      → Ordered R (xs ++ ys)
  Ordered-append R [] ys p q r = q
  Ordered-append R (x ∷ xs) ys p q r =
      (All-append (R x) xs ys p.0 r.0, Ordered-append R xs ys p.1 q r.1)

  -- One element after all the others.
  pub Ordered-snoc {κ} :
      (R : A → A → Type κ) (xs : List A) (x : A)
      → All (λ y. R y x) xs
      → Ordered R xs
      → Ordered R (xs ++ x ∷ [])
  Ordered-snoc R xs x p h =
      Ordered-append R xs (x ∷ []) h (tt, tt)
        (All-map (λ y. R y x) (λ y. All (R y) (x ∷ [])) (λ y r. (r, tt)) xs p)

  pub All-filter_of {κ} :
      (P : A → Type κ) (p : A → Bool) (xs : List A) → All P xs → All P (filter p xs)
  unfolding filter
  All-filter_of P p [] h = tt
  All-filter_of P p (x ∷ xs) h = elim (Bool-cases (p x)) [
    | inl e ↦ rw e (h.0, All-filter_of P p xs h.1)
    | inr e ↦ rw e (All-filter_of P p xs h.1)
  ]

  pub All-find {κ} :
      (P : A → Type κ) (p : A → Bool) (xs : List A) (x : A) → All P xs → find p xs ≡ some x → P x
  unfolding find
  All-find P p [] x h e = cc
  All-find P p (y ∷ ys) x h e = elim (Bool-cases (p y)) [
    | inl t ↦ subst P (some-inj y x (rw (find, t) at e)) h.0
    | inr t ↦ All-find P p ys x h.1 (rw (find, t) at e)
  ]

  -- A test that finds nothing fails everywhere.
  pub find-none : (p : A → Bool) (xs : List A) → find p xs ≡ none → All (λ x. p x ≡ Bool.false) xs
  unfolding find
  find-none p [] e = tt
  find-none p (y ∷ ys) e = elim (Bool-cases (p y)) [
    | inl t ↦ cc (rw (find, t) at e)
    | inr t ↦ (t, find-none p ys (rw (find, t) at e))
  ]

module _ {ℓ} {A : Type ℓ} where
  pub find-fails : (p : A → Bool) (xs : List A) → All (λ x. p x ≡ Bool.false) xs → find p xs ≡ none
  unfolding find
  find-fails p [] h = refl
  find-fails p (x ∷ xs) h = rw (h.0, find-fails p xs h.1) refl

module _ {ℓ μ} {A : Type ℓ} {B : Type μ} (f : A → B) where
  -- A predicate of the images.
  pub All-image {κ ν} :
      (P : A → Type κ) (Q : B → Type ν)
      → ((a : A) → P a → Q (f a))
      → (xs : List A) → All P xs
      → All Q (map f xs)
  All-image P Q g [] h = tt
  All-image P Q g (x ∷ xs) h = (g x h.0, All-image P Q g xs h.1)

  pub Ordered-image {κ ν} :
      (R : A → A → Type κ) (S : B → B → Type ν)
      → ((a b : A) → R a b → S (f a) (f b))
      → (xs : List A) → Ordered R xs
      → Ordered S (map f xs)
  Ordered-image R S g [] h = tt
  Ordered-image R S g (x ∷ xs) h =
      (All-image (R x) (S (f x)) (g x) xs h.0, Ordered-image R S g xs h.1)

module _ {ℓ} {A : Type ℓ} where
  -- A change of the elements that no element's test notices: the same element is found, changed.
  pub find-map_stable :
      (p : A → Bool) (g : A → A) (xs : List A) (x : A)
      → All (λ a. p (g a) ≡ p a) xs
      → find p xs ≡ some x
      → find p (map g xs) ≡ some (g x)
  unfolding find
  find-map_stable p g [] x h e = cc
  find-map_stable p g (y ∷ ys) x h e = elim (Bool-cases (p y)) [
    | inl t ↦ rw (h.0, t) (ap some (ap g (some-inj y x (rw (find, t) at e))))
    | inr t ↦ rw (h.0, t) (find-map_stable p g ys x h.1 (rw (find, t) at e))
  ]

  -- A change that leaves the selected elements as they are leaves the selection.
  pub filter-map_stable :
      (p : A → Bool) (g : A → A) (xs : List A)
      → All (λ a. (p (g a) ≡ p a) × (p a ≡ Bool.true → g a ≡ a)) xs
      → filter p (map g xs) ≡ filter p xs
  unfolding filter
  filter-map_stable p g [] h = refl
  filter-map_stable p g (x ∷ xs) h = elim (Bool-cases (p x)) [
    | inl t ↦ rw (h.0.0, t, h.0.1 t, filter-map_stable p g xs h.1) refl
    | inr t ↦ rw (h.0.0, t, filter-map_stable p g xs h.1) refl
  ]
