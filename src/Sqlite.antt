-- ===== src/Sqlite.antt =====
-- Tables with an `INTEGER PRIMARY KEY`, as the services read and write them through sqlite3: a table
-- is the list of its rows in the order of their ids, which is the order in which they were inserted.
-- Ids are natural numbers: a negative id in a request matches no row, as 0 matches none. An integer
-- of 2^63 or more is no value of a column: sqlite3 raises an OverflowError when a statement is to
-- bind it, so `is_bindable` is tested where an integer of a request first reaches a statement.
pub mod Laws
use torq_pro.Prelude.{
  String, Bool, ℕ, ◌+◌, Option, List, [], ◌∷◌, ◌++◌, map, find, ltb, eqb, if◌then◌else◌,
}

pub record HasKey (A : Type 0) : Type 0 where
  pub key : A → ℕ

-- What is around one call: the readings of the clock, and what others write in each gap between its
-- statements.
pub record World (D : Type 0) : Type 0 where
  pub now : ℕ → String
  pub gap : ℕ → D → D

-- No one else writes during the call.
abbrev pub alone : {D : Type 0} → (ℕ → String) → World D
alone now = record { now = now; gap = λ _ db. db }

unfoldable pub is_bindable : ℕ → Bool
is_bindable n = ltb n 9223372036854775808

module _ {A : Type 0} where
  -- `MAX(column)`, 0 over no row
  unfoldable pub max_of : (A → ℕ) → List A → ℕ
  max_of f [] = 0
  max_of f (x ∷ xs) = let rest = max_of f xs in if ltb rest (f x) then f x else rest

  module _ ⦃k : HasKey A⦄ where
    -- the id that SQLite gives to an inserted row
    unfoldable pub next_id : List A → ℕ
    unfolding max_of
    next_id rows = max_of k.key rows + 1

    -- `SELECT * ... WHERE id=?`, `fetchone()`
    unfoldable pub fetch : ℕ → List A → Option A
    unfolding find
    fetch id rows = find (λ r. eqb (k.key r) id) rows

    -- `UPDATE ... SET ... WHERE id=?`
    unfoldable pub update : ℕ → (A → A) → List A → List A
    update id f rows = map (λ r. if eqb (k.key r) id then f r else r) rows
