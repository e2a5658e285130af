-- ===== src/Governance/Timestamps.antt =====
-- The UTC ISO-8601 format check (`UTC_ISO8601_PATTERN` of backend/governance/models.py), as Python's
-- `re` reads the pattern on a `str`: `\d` is any Unicode decimal digit, and `$` also stands before
-- a newline at the end of the text.
use torq_pro.Prelude.{
  ℕ, zero, suc, ◌+◌, String, Bool, false, ◌&&◌, ◌||◌, Option, none, some, List, [], ◌∷◌, leb, eqb,
  if◌then◌else◌, codes,
}
use torq_pro.Governance.Errors.{Outcome, validation_error}
use torq_pro.Prelude.{ok, err}

-- The zeros of the blocks of ten decimal digits, category Nd of Unicode 14.
unfoldable pub digit_zeros : List ℕ
digit_zeros =
    0x30 ∷ 0x660 ∷ 0x6f0 ∷ 0x7c0 ∷ 0x966 ∷ 0x9e6 ∷ 0xa66 ∷ 0xae6 ∷ 0xb66 ∷ 0xbe6 ∷ 0xc66 ∷ 0xce6
    ∷ 0xd66 ∷ 0xde6 ∷ 0xe50 ∷ 0xed0 ∷ 0xf20 ∷ 0x1040 ∷ 0x1090 ∷ 0x17e0 ∷ 0x1810 ∷ 0x1946 ∷ 0x19d0
    ∷ 0x1a80 ∷ 0x1a90 ∷ 0x1b50 ∷ 0x1bb0 ∷ 0x1c40 ∷ 0x1c50 ∷ 0xa620 ∷ 0xa8d0 ∷ 0xa900 ∷ 0xa9d0
    ∷ 0xa9f0 ∷ 0xaa50 ∷ 0xabf0 ∷ 0xff10 ∷ 0x104a0 ∷ 0x10d30 ∷ 0x11066 ∷ 0x110f0 ∷ 0x11136 ∷ 0x111d0
    ∷ 0x112f0 ∷ 0x11450 ∷ 0x114d0 ∷ 0x11650 ∷ 0x116c0 ∷ 0x11730 ∷ 0x118e0 ∷ 0x11950 ∷ 0x11c50
    ∷ 0x11d50 ∷ 0x11da0 ∷ 0x16a60 ∷ 0x16ac0 ∷ 0x16b50 ∷ 0x1d7ce ∷ 0x1d7d8 ∷ 0x1d7e2 ∷ 0x1d7ec
    ∷ 0x1d7f6 ∷ 0x1e140 ∷ 0x1e2f0 ∷ 0x1e950 ∷ 0x1fbf0 ∷ []

unfoldable pub in_blocks : List ℕ → ℕ → Bool
in_blocks [] c = false
in_blocks (z ∷ zs) c = (leb z c && leb c (z + 9)) || in_blocks zs c

unfoldable pub is_digit : ℕ → Bool
unfolding in_blocks digit_zeros
is_digit c = in_blocks digit_zeros c

pub data Token : Type 0 where
  digit : Token
  lit : ℕ → Token

unfoldable pub fits : Token → ℕ → Bool
unfolding is_digit
fits digit c = is_digit c
fits (lit d) c = eqb c d

-- The rest of the text behind a fixed row of tokens.
unfoldable pub eat : List Token → List ℕ → Option (List ℕ)
unfolding fits
eat [] text = some text
eat (t ∷ ts) [] = none
eat (t ∷ ts) (c ∷ text) = let rest = eat ts text in if fits t c then rest else none

-- `\d{4}-\d{2}-\d{2}T\d{2}:\d{2}:\d{2}`
unfoldable pub date_time : List Token
date_time =
    digit
    ∷ digit
    ∷ digit
    ∷ digit
    ∷ lit b'-'
    ∷ digit
    ∷ digit
    ∷ lit b'-'
    ∷ digit
    ∷ digit
    ∷ lit b'T'
    ∷ digit
    ∷ digit
    ∷ lit b':'
    ∷ digit
    ∷ digit
    ∷ lit b':'
    ∷ digit
    ∷ digit
    ∷ []

-- At most `n` digits less; what follows must be no digit for the match to go on, so the greedy
-- choice is the only one.
unfoldable pub drop_digits : ℕ → List ℕ → List ℕ
unfolding is_digit
drop_digits zero text = text
drop_digits (suc n) [] = []
drop_digits (suc n) (c ∷ text) =
    let rest = drop_digits n text in if is_digit c then rest else c ∷ text

-- `(\.\d{1,6})?`
unfoldable pub fraction : List ℕ → Option (List ℕ)
unfolding drop_digits
fraction [] = some []
fraction (c ∷ []) = if eqb c b'.' then none else some (c ∷ [])
fraction (c ∷ d ∷ text) =
    if eqb c b'.'
    then (if is_digit d then some (drop_digits 5 text) else none)
    else some (c ∷ d ∷ text)

-- `Z$`
unfoldable pub at_end : List ℕ → Bool
at_end (c ∷ []) = eqb c b'Z'
at_end (c ∷ d ∷ []) = eqb c b'Z' && eqb d 10
at_end _ = false

unfoldable pub matches_pattern : List ℕ → Bool
unfolding eat date_time fraction at_end
matches_pattern text = elim (eat date_time text) [
  | none ↦ false
  | some rest ↦ elim (fraction rest) [ none ↦ false | some zone ↦ at_end zone ]
]

unfoldable pub is_valid_utc_iso8601 : String → Bool
unfolding matches_pattern
is_valid_utc_iso8601 value = matches_pattern (codes value)

-- `_validate_optional_timestamp`
unfoldable pub validate_optional_timestamp : Option String → Outcome (Option String)
validate_optional_timestamp none = ok none
validate_optional_timestamp (some value) =
    if is_valid_utc_iso8601 value then ok (some value) else err (validation_error value)
