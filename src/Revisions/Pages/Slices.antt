-- ===== src/Revisions/Pages/Slices.antt =====
-- How the pages of a list lie in it, and how many there are (backend/governance/joint_revision_query.py).
use torq_pro.Prelude.{
  ◌≡◌, refl, ap, sym, ◌∙◌, ℕ, zero, suc, ◌+◌, ◌-◌, ◌*◌, ◌≤◌, ◌<◌, List, [], ◌∷◌, ◌++◌, length,
  arith, Bool-cases, inl, inr, eqb,
}
use native.Mathlib.Nat.{div-mul-le_self, lt-div-mul-add}
use torq_pro.Revisions.Pages.{take_items, drop_items, ceil_div}

suc_add : (m n : ℕ) → suc (m + n) ≡ suc m + n
suc_add m n = omega arith

module _ {ℓ} {A : Type ℓ} where
  pub take_items-nil : (n : ℕ) → take_items {A = A} n [] ≡ []
  unfolding take_items
  take_items-nil zero = refl
  take_items-nil (suc n) = refl

  pub take_items-add :
      (m n : ℕ) (xs : List A)
      → take_items m xs ++ take_items n (drop_items m xs) ≡ take_items (m + n) xs
  unfolding take_items drop_items
  take_items-add zero n xs = ap (λ k. take_items k xs) (omega arith)
  take_items-add (suc m) n [] = take_items-nil n ∙ sym (take_items-nil (suc m + n))
  take_items-add (suc m) n (x ∷ xs) =
      ap (λ r. x ∷ r) (take_items-add m n xs) ∙ ap (λ k. take_items k (x ∷ xs)) (suc_add m n)

  pub length-take_items : (n : ℕ) (xs : List A) → length (take_items n xs) ≤ n
  unfolding take_items
  length-take_items zero xs = omega arith
  length-take_items (suc n) [] = omega arith
  length-take_items (suc n) (x ∷ xs) = omega (arith, length-take_items n xs)

  pub take_items-all : (n : ℕ) (xs : List A) → length xs ≤ n → take_items n xs ≡ xs
  unfolding take_items
  take_items-all zero [] h = refl
  take_items-all zero (x ∷ xs) h = ground arith
  take_items-all (suc n) [] h = refl
  take_items-all (suc n) (x ∷ xs) h = ap (λ r. x ∷ r) (take_items-all n xs (omega arith))

  pub drop_items-all : (n : ℕ) (xs : List A) → length xs ≤ n → drop_items n xs ≡ []
  unfolding drop_items
  drop_items-all zero [] h = refl
  drop_items-all zero (x ∷ xs) h = ground arith
  drop_items-all (suc n) [] h = refl
  drop_items-all (suc n) (x ∷ xs) h = drop_items-all n xs (omega arith)

-- The number of pages is the least that covers the list.
pub ceil_div-covers :
    (total page_size : ℕ)
    → 1 ≤ page_size
    → (total ≤ ceil_div total page_size * page_size)
      × (ceil_div total page_size * page_size < total + page_size)
unfolding ceil_div
ceil_div-covers total page_size h = elim (Bool-cases (eqb total 0)) [
  | inl e ↦ rw e (ground arith)
  | inr e ↦ rw e (
      omega (
        arith,
        div-mul-le_self (total + page_size - 1) page_size,
        lt-div-mul-add {a = total + page_size - 1} {b = page_size} (omega arith),
      ))
]
