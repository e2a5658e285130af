-- ===== src/Revisions/Texts/Spaces.antt =====
-- `strip` on a text with spaces around it.
use torq_pro.Prelude.{
  ◌≡◌, refl, ap, ◌∙◌, ℕ, Bool, true, false, ◌&&◌, List, [], ◌∷◌, ◌++◌, all, inl, inr, Bool-cases,
  string_eq, int_eq, option_eq, is_space,
}
use torq_pro.Revisions.Texts.{skip_spaces, skip_last_spaces, strip}

and-inv : (a b : Bool) → a && b ≡ true → (a ≡ true) × (b ≡ true)
and-inv true true h = (refl, refl)
and-inv true false h = cc
and-inv false b h = cc

skip_spaces-all : (ys : List ℕ) → all is_space ys ≡ true → skip_spaces ys ≡ []
unfolding skip_spaces all
skip_spaces-all [] h = refl
skip_spaces-all (y ∷ ys) h =
    let (first, rest) = and-inv (is_space y) (all is_space ys) h in
    rw first (skip_spaces-all ys rest)

skip_last_spaces-all : (ys : List ℕ) → all is_space ys ≡ true → skip_last_spaces ys ≡ []
unfolding skip_last_spaces all
skip_last_spaces-all [] h = refl
skip_last_spaces-all (y ∷ ys) h =
    let (first, rest) = and-inv (is_space y) (all is_space ys) h in
    rw (skip_last_spaces-all ys rest, first) refl

skip_last_spaces-append :
    (cs ys : List ℕ) → all is_space ys ≡ true → skip_last_spaces (cs ++ ys) ≡ skip_last_spaces cs
unfolding skip_last_spaces
skip_last_spaces-append [] ys h = skip_last_spaces-all ys h
skip_last_spaces-append (c ∷ cs) ys h = rw (skip_last_spaces-append cs ys h) refl

strip-left : (xs cs : List ℕ) → all is_space xs ≡ true → strip (xs ++ cs) ≡ strip cs
unfolding strip skip_spaces all
strip-left [] cs h = refl
strip-left (x ∷ xs) cs h =
    let (first, rest) = and-inv (is_space x) (all is_space xs) h in rw first (strip-left xs cs rest)

strip-right : (cs ys : List ℕ) → all is_space ys ≡ true → strip (cs ++ ys) ≡ strip cs
unfolding strip skip_spaces
strip-right [] ys h = ap skip_last_spaces (skip_spaces-all ys h)
strip-right (c ∷ cs) ys h = elim (Bool-cases (is_space c)) [
  | inl e ↦ rw e (strip-right cs ys h)
  | inr e ↦ rw e (skip_last_spaces-append (c ∷ cs) ys h)
]

pub strip-surrounded :
    (xs cs ys : List ℕ)
    → all is_space xs ≡ true
    → all is_space ys ≡ true
    → strip (xs ++ (cs ++ ys)) ≡ strip cs
strip-surrounded xs cs ys h i = strip-left xs (cs ++ ys) h ∙ strip-right cs ys i
