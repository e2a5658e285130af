-- ===== src/Revisions/Sorting.antt =====
-- Python's `sorted`, whose only use of its elements is the test `before`, with the laws that the
-- revision queries (backend/governance/joint_revision_query.py) need.
use torq_pro.Prelude.{
  ◌≡◌, refl, Bool, true, ◌&&◌, ◌||◌, not, List, [], ◌∷◌, if◌then◌else◌, All, Ordered, Bool-cases,
  inl, inr, arith,
}
use mathlib.Core.List.{Permᴰ}
use mathlib.Core.List.Permᴰ

module _ {ℓ} {A : Type ℓ} (before : A → A → Bool) where
  unfoldable pub insert : A → List A → List A
  insert x [] = x ∷ []
  insert x (y ∷ ys) = let rest = insert x ys in if before y x then y ∷ rest else x ∷ y ∷ ys

  -- An element goes before the first of the later ones that is not before it.
  unfoldable pub sorted : List A → List A
  unfolding insert
  sorted [] = []
  sorted (x ∷ xs) = insert x (sorted xs)

  All-insert {κ} : (P : A → Type κ) (x : A) (ys : List A) → P x → All P ys → All P (insert x ys)
  unfolding insert
  All-insert P x [] p q = (p, tt)
  All-insert P x (y ∷ ys) p q = elim (Bool-cases (before y x)) [
    | inl e ↦ rw e (q.0, All-insert P x ys p q.1)
    | inr e ↦ rw e (p, q)
  ]

  pub All-sorted {κ} : (P : A → Type κ) (xs : List A) → All P xs → All P (sorted xs)
  unfolding sorted
  All-sorted P [] h = tt
  All-sorted P (x ∷ xs) h = All-insert P x (sorted xs) h.0 (All-sorted P xs h.1)

  insert-Permᴰ : (x : A) (ys : List A) → Permᴰ (insert x ys) (x ∷ ys)
  unfolding insert
  insert-Permᴰ x [] = Permᴰ.refl (x ∷ [])
  insert-Permᴰ x (y ∷ ys) = elim (Bool-cases (before y x)) [
    | inl e ↦ rw e (Permᴰ.trans (Permᴰ.cons refl (insert-Permᴰ x ys)) (Permᴰ.swap refl refl))
    | inr e ↦ rw e (Permᴰ.refl (x ∷ y ∷ ys))
  ]

  pub sorted-Permᴰ : (xs : List A) → Permᴰ (sorted xs) xs
  unfolding sorted
  sorted-Permᴰ [] = Permᴰ.nil
  sorted-Permᴰ (x ∷ xs) =
      Permᴰ.trans (insert-Permᴰ x (sorted xs)) (Permᴰ.cons refl (sorted-Permᴰ xs))

  -- The order of a stable sort: the test, and `tie` where the test separates neither way.
  abbrev pub stable : (A → A → Bool) → A → A → Bool
  stable tie a b = before a b || (not (before b a) && tie a b)

  module _ (tie : A → A → Bool)
      (split : (a b c : A) → before a c ≡ true → before a b || before b c ≡ true) where
    later :
        (x y : A) (ys : List A)
        → before y x ≡ Bool.false
        → All (λ z. tie x z ≡ true) ys
        → All (λ z. stable tie y z ≡ true) ys
        → All (λ z. stable tie x z ≡ true) ys
    later x y [] e t s = tt
    later x y (z ∷ zs) e t s = (ground (arith, split y x z, split z y x), later x y zs e t.1 s.1)

    insert-Ordered :
        (x : A) (ys : List A)
        → All (λ z. tie x z ≡ true) ys
        → Ordered (λ a b. stable tie a b ≡ true) ys
        → Ordered (λ a b. stable tie a b ≡ true) (insert x ys)
    unfolding insert
    insert-Ordered x [] t o = (tt, tt)
    insert-Ordered x (y ∷ ys) t o = elim (Bool-cases (before y x)) [
      | inl e ↦ rw e (
        All-insert (λ z. stable tie y z ≡ true) x ys (ground arith) o.0,
        insert-Ordered x ys t.1 o.1,
      )
      | inr e ↦ rw e ((ground arith, later x y ys e t.1 o.0), o)
    ]

    -- A list that is in the order `tie` comes out in the order of the test, with ties as they were.
    pub sorted-Ordered :
        (xs : List A)
        → Ordered (λ a b. tie a b ≡ true) xs
        → Ordered (λ a b. stable tie a b ≡ true) (sorted xs)
    unfolding sorted
    sorted-Ordered [] o = tt
    sorted-Ordered (x ∷ xs) o =
        insert-Ordered x (sorted xs) (All-sorted (λ z. tie x z ≡ true) xs o.0)
          (sorted-Ordered xs o.1)
