-- ===== src/Revisions/Texts/Decimal.antt =====
-- The text of an int as a decimal numeral.
use torq_pro.Prelude.{
  ◌≡◌, refl, ap, ◌∙◌, ℕ, zero, suc, ◌+◌, ◌-◌, ◌*◌, ◌/◌, ◌%◌, ◌≤◌, Bool, true, not, List, [], ◌∷◌,
  ◌++◌, ℤ, pos, negsuc, arith, inl, inr, Bool-cases, if◌then◌else◌, string_eq, int_eq, option_eq,
  ltb, eqb,
}
use torq_pro.Revisions.Texts.{digits, str}

-- The number that a numeral stands for, read from the left.
unfoldable pub read_digits : ℕ → List ℕ → ℕ
read_digits acc [] = acc
read_digits acc (c ∷ cs) = read_digits (acc * 10 + (c - 48)) cs

unfoldable pub negated : ℕ → ℤ
negated zero = pos 0
negated (suc n) = negsuc n

unfoldable pub read_int : List ℕ → ℤ
unfolding read_digits negated
read_int [] = pos 0
read_int (c ∷ cs) = if eqb c 45 then negated (read_digits 0 cs) else pos (read_digits 0 (c ∷ cs))

read_digits-snoc :
    (acc : ℕ) (cs : List ℕ) (c : ℕ)
    → read_digits acc (cs ++ c ∷ []) ≡ read_digits acc cs * 10 + (c - 48)
unfolding read_digits digits
read_digits-snoc acc [] c = refl
read_digits-snoc acc (d ∷ ds) c = read_digits-snoc (acc * 10 + (d - 48)) ds c

read_digits-digits : (fuel n : ℕ) → n ≤ fuel → read_digits 0 (digits fuel n) ≡ n
unfolding read_digits digits
read_digits-digits zero n h = omega arith
read_digits-digits (suc fuel) n h = elim (Bool-cases (ltb n 10)) [
  | inl e ↦ rw (digits, e) (omega arith)
  | inr e ↦
      rw (digits, e)
        (read_digits-snoc 0 (digits fuel (n / 10)) (48 + n % 10)
          ∙ ap (λ k. k * 10 + (48 + n % 10 - 48)) (read_digits-digits fuel (n / 10) (ground arith))
          ∙ ground arith)
]

-- A list that a minus sign does not begin.
unfoldable no_sign : List ℕ → Bool
no_sign [] = true
no_sign (c ∷ cs) = not (eqb c 45)

no_sign-append :
    (xs ys : List ℕ) → no_sign xs ≡ true → no_sign ys ≡ true → no_sign (xs ++ ys) ≡ true
unfolding no_sign digits
no_sign-append [] ys h i = i
no_sign-append (x ∷ xs) ys h i = h

digits-no_sign : (fuel n : ℕ) → no_sign (digits fuel n) ≡ true
unfolding no_sign digits
digits-no_sign zero n = ground arith
digits-no_sign (suc fuel) n = elim (Bool-cases (ltb n 10)) [
  | inl e ↦ rw (digits, e) (ground arith)
  | inr e ↦
      rw (digits, e)
        (no_sign-append (digits fuel (n / 10)) ((48 + n % 10) ∷ []) (digits-no_sign fuel (n / 10))
          (ground arith))
]

read_int-unsigned : (cs : List ℕ) → no_sign cs ≡ true → read_int cs ≡ pos (read_digits 0 cs)
unfolding no_sign read_int read_digits
read_int-unsigned [] h = refl
read_int-unsigned (c ∷ cs) h = ground arith

add_one : (n : ℕ) → n + 1 ≡ suc n
add_one n = omega arith

negated-suc : (n : ℕ) → negated (n + 1) ≡ negsuc n
unfolding negated
negated-suc n = ap negated (add_one n)

-- The text of an int reads back as the int.
pub read_int-str : (i : ℤ) → read_int (str i) ≡ i
unfolding str read_int
read_int-str (pos n) =
    read_int-unsigned (digits n n) (digits-no_sign n n)
    ∙ ap pos (read_digits-digits n n (omega arith))
read_int-str (negsuc n) =
    ap negated (read_digits-digits (n + 1) (n + 1) (omega arith)) ∙ negated-suc n
