-- ===== src/Revisions/Export/Reading.antt =====
-- A reader of comma-separated values, for what the export writes
-- (backend/governance/joint_revision_csv.py).
pub mod Roundtrip
use torq_pro.Prelude.{
  ◌≡◌, refl, ap, sym, subst, ◌∙◌, ℕ, zero, suc, ◌+◌, ◌-◌, ◌*◌, ◌/◌, ◌%◌, String, Bool, true, false,
  ◌&&◌, ◌||◌, not, Option, none, some, List, [], ◌∷◌, ◌++◌, map, ℤ, arith, All, inl, inr,
  Bool-cases, if◌then◌else◌, ltb, eqb, is_space, codes, Result, ok, err, append-nil, append_assoc,
}
use torq_pro.Revisions.Projection.{JointRevisionProjection}
use torq_pro.Revisions.Export.{
  csv_columns, projection_to_row, is_special, needs_quotes, doubled, write_field, write_rest,
  write_row, write_rows, build_csv_text,
}

pub data Mode : Type 0 where
  fresh plain quoted closing : Mode

-- The reader: where it is in a field, the field and the row so far, the rows before.
pub record Reader : Type 0 where
  pub mode : Mode
  pub field : List ℕ
  pub row : List (List ℕ)
  pub rows : List (List (List ℕ))

abbrev pub at : Mode → List ℕ → List (List ℕ) → List (List (List ℕ)) → Reader
at mode field row rows = record { mode = mode; field = field; row = row; rows = rows }

-- A character outside quotes.
unfoldable pub unquoted : Reader → ℕ → Reader
unquoted r c =
    if eqb c 44
    then at Mode.fresh [] (r.row ++ r.field ∷ []) r.rows
    else if eqb c 13
    then r
    else if eqb c 10
    then at Mode.fresh [] [] (r.rows ++ (r.row ++ r.field ∷ []) ∷ [])
    else at Mode.plain (r.field ++ c ∷ []) r.row r.rows

unfoldable pub step_in : Mode → Reader → ℕ → Reader
unfolding unquoted
step_in Mode.fresh r c = if eqb c 34 then at Mode.quoted [] r.row r.rows else unquoted r c
step_in Mode.plain r c = unquoted r c
step_in Mode.quoted r c =
    if eqb c 34
    then at Mode.closing r.field r.row r.rows
    else at Mode.quoted (r.field ++ c ∷ []) r.row r.rows
step_in Mode.closing r c =
    if eqb c 34 then at Mode.quoted (r.field ++ c ∷ []) r.row r.rows else unquoted r c

unfoldable pub run : Reader → List ℕ → Reader
unfolding step_in
run r [] = r
run r (c ∷ cs) = run (step_in r.mode r c) cs

unfoldable pub read_csv : List ℕ → List (List (List ℕ))
unfolding run
read_csv cs = (run (at Mode.fresh [] [] []) cs).rows
