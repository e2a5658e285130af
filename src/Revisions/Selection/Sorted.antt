-- ===== src/Revisions/Selection/Sorted.antt =====
-- Laws of the comparisons and of filters that the sort of projections needs
-- (backend/governance/joint_revision_query.py).
use torq_pro.Prelude.{
  Ordered, All-map, ◌≡◌, refl, ℕ, Bool, true, ◌||◌, not, Option, none, some, List, [], ◌∷◌, ◌++◌, ℤ,
  arith, filter, All, inl, inr, Bool-cases, string_eq, Bool-cases,
}
use mathlib.Core.List.{Permᴰ}
use mathlib.Core.List.Permᴰ
use torq_pro.Revisions.Source.{int_lt}
use torq_pro.Revisions.Texts.{text_lt}
use torq_pro.Revisions.Selection.{value_lt}

pub int_lt-split : (a b c : ℤ) → int_lt a c ≡ true → int_lt a b || int_lt b c ≡ true
unfolding int_lt
int_lt-split a b c h = ground arith

text_lt-split : (a b c : List ℕ) → text_lt a c ≡ true → text_lt a b || text_lt b c ≡ true
unfolding text_lt
text_lt-split [] [] c h = ground arith
text_lt-split [] (y ∷ ys) c h = refl
text_lt-split (x ∷ xs) b [] h = cc
text_lt-split (x ∷ xs) [] (z ∷ zs) h = refl
text_lt-split (x ∷ xs) (y ∷ ys) (z ∷ zs) h = ground (arith, text_lt-split xs ys zs)

pub value_lt-split :
    (a b c : Option (List ℕ)) → value_lt a c ≡ true → value_lt a b || value_lt b c ≡ true
unfolding value_lt
value_lt-split (some a) (some b) (some c) h = text_lt-split a b c h
value_lt-split (some a) none (some c) h = refl
value_lt-split none (some b) (some c) h = refl
value_lt-split none none (some c) h = refl
value_lt-split a b none h = ground arith

module _ {ℓ} {A : Type ℓ} where
  pub All-filter : (p : A → Bool) (xs : List A) → All (λ x. p x ≡ true) (filter p xs)
  unfolding filter
  All-filter p [] = tt
  All-filter p (x ∷ xs) = elim (Bool-cases (p x)) [
    | inl e ↦ rw e (e, All-filter p xs)
    | inr e ↦ rw e (All-filter p xs)
  ]

  -- What passes a test, then what does not, is the list up to its order.
  pub partition-Permᴰ :
      (p : A → Bool) (xs : List A) → Permᴰ (filter p xs ++ filter (λ x. not (p x)) xs) xs
  unfolding filter
  partition-Permᴰ p [] = Permᴰ.nil
  partition-Permᴰ p (x ∷ xs) = elim (Bool-cases (p x)) [
    | inl e ↦ rw e (Permᴰ.cons refl (partition-Permᴰ p xs))
    | inr e ↦ rw e (
        Permᴰ.trans (Permᴰ.middle x (filter p xs) (filter (λ x. not (p x)) xs))
          (Permᴰ.cons refl (partition-Permᴰ p xs)))
  ]

  pub All-cross {κ μ ν} :
      (P : A → Type κ) (Q : A → Type μ) (R : A → A → Type ν)
      → ((a b : A) → P a → Q b → R a b)
      → (xs ys : List A) → All P xs
      → All Q ys
      → All (λ x. All (R x) ys) xs
  All-cross P Q R f [] ys p q = tt
  All-cross P Q R f (x ∷ xs) ys p q =
      (All-map Q (R x) (λ y r. f x y p.0 r) ys q, All-cross P Q R f xs ys p.1 q)

  pub Ordered-any : (xs : List A) → Ordered (λ a b. ◌≡◌ {A = Bool} true true) xs
  Ordered-any [] = tt
  Ordered-any (x ∷ xs) = (any xs, Ordered-any xs)
    where
      any : (ys : List A) → All (λ b. ◌≡◌ {A = Bool} true true) ys
      any [] = tt
      any (y ∷ ys) = (refl, any ys)

  pub All-any : (xs : List A) → All (λ x. Unit {0}) xs
  All-any [] = tt
  All-any (x ∷ xs) = (tt, All-any xs)
