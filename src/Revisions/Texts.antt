-- ===== src/Revisions/Texts.antt =====
-- What backend/governance/joint_revision_query.py uses of Python's int and str, on lists of code
-- points: `str`, `strip`, `in` and `<`.
pub mod Decimal
pub mod Spaces
use torq_pro.Prelude.{
  ℕ, zero, suc, ◌+◌, ◌/◌, ◌%◌, Bool, true, false, ◌&&◌, ◌||◌, List, [], ◌∷◌, ◌++◌, ℤ, pos, negsuc,
  if◌then◌else◌, ltb, eqb, is_space,
}

-- The decimal digits of a number; as much fuel as the number is enough.
unfoldable pub digits : ℕ → ℕ → List ℕ
digits zero n = (48 + n % 10) ∷ []
digits (suc fuel) n = elim (ltb n 10) [
  | true ↦ (48 + n) ∷ []
  | false ↦ digits fuel (n / 10) ++ (48 + n % 10) ∷ []
]

-- `str` of an int
unfoldable pub str : ℤ → List ℕ
unfolding digits
str (pos n) = digits n n
str (negsuc n) = 45 ∷ digits (n + 1) (n + 1)

unfoldable pub skip_spaces : List ℕ → List ℕ
skip_spaces [] = []
skip_spaces (c ∷ cs) = let rest = skip_spaces cs in if is_space c then rest else c ∷ cs

-- `rstrip`: the spaces that nothing but spaces follows go.
unfoldable pub skip_last_spaces : List ℕ → List ℕ
skip_last_spaces [] = []
skip_last_spaces (c ∷ cs) = elim (skip_last_spaces cs) [
  | [] ↦ if is_space c then [] else c ∷ []
  | d ∷ ds ↦ c ∷ d ∷ ds
]

unfoldable pub strip : List ℕ → List ℕ
unfolding skip_spaces skip_last_spaces
strip cs = skip_last_spaces (skip_spaces cs)

unfoldable pub starts_with : List ℕ → List ℕ → Bool
starts_with [] cs = true
starts_with (d ∷ ds) [] = false
starts_with (d ∷ ds) (c ∷ cs) = eqb d c && starts_with ds cs

-- `part in whole`
unfoldable pub is_in : List ℕ → List ℕ → Bool
unfolding starts_with
is_in part [] = starts_with part []
is_in part (c ∷ cs) = starts_with part (c ∷ cs) || is_in part cs

-- Python's `<` on str
unfoldable pub text_lt : List ℕ → List ℕ → Bool
text_lt [] [] = false
text_lt [] (d ∷ ds) = true
text_lt (c ∷ cs) [] = false
text_lt (c ∷ cs) (d ∷ ds) = ltb c d || (eqb c d && text_lt cs ds)
