-- ===== src/Revisions/Export/Safety.antt =====
-- Formulas in the cells of the export (backend/governance/joint_revision_csv.py).
use torq_pro.Prelude.{
  ◌≡◌, refl, sym, subst, ℕ, false, Option, none, some, List, [], ◌∷◌, map, All, inl, inr,
  Bool-cases, is_space, codes,
}
use torq_pro.Revisions.Texts.{skip_spaces}
use torq_pro.Revisions.Projection.{JointRevisionProjection}
use torq_pro.Revisions.Export.{
  csv_columns, projection_to_row, guarded_cells, safe_csv_cell, first_is_trigger, build_csv_text,
}
use torq_pro.Revisions.Export.Reading.{read_csv}
use torq_pro.Revisions.Export.Reading.Roundtrip.{read_csv-build_csv_text}

-- A spreadsheet takes the cell for no formula: what follows its spaces is no trigger.
abbrev pub IsInert : List ℕ → Type 0
IsInert cell = first_is_trigger (skip_spaces cell) ≡ false

-- The cells of a row after the first.
abbrev pub after_id : List (List ℕ) → List (List ℕ)
after_id [] = []
after_id (cell ∷ cells) = cells

safe_csv_cell-IsInert : (value : Option (List ℕ)) → IsInert (safe_csv_cell value)
unfolding safe_csv_cell skip_spaces first_is_trigger is_space
safe_csv_cell-IsInert none = refl
safe_csv_cell-IsInert (some text) = elim (Bool-cases (first_is_trigger (skip_spaces text))) [
  | inl e ↦ rw (safe_csv_cell, e) refl
  | inr e ↦ rw (safe_csv_cell, e) e
]

guarded_cells-IsInert : (p : JointRevisionProjection) → All IsInert (guarded_cells p)
unfolding guarded_cells
guarded_cells-IsInert p = (
  safe_csv_cell-IsInert (some (codes p.source_system)),
  (
    safe_csv_cell-IsInert _,
    (
      safe_csv_cell-IsInert _,
      (
        safe_csv_cell-IsInert _,
        (safe_csv_cell-IsInert (some (codes p.outcome)), (safe_csv_cell-IsInert _, tt)),
      ),
    ),
  ),
)

rows-IsInert :
    (ps : List JointRevisionProjection)
    → All (λ row. All IsInert (after_id row)) (map projection_to_row ps)
unfolding projection_to_row
rows-IsInert [] = tt
rows-IsInert (p ∷ ps) = (guarded_cells-IsInert p, rows-IsInert ps)

columns-IsInert : All IsInert (after_id csv_columns)
unfolding csv_columns first_is_trigger skip_spaces is_space
columns-IsInert = (refl, (refl, (refl, (refl, (refl, (refl, tt))))))

-- In every row that a reader of the exported text gets, no cell after the id starts a formula.
pub read_csv-IsInert :
    (ps : List JointRevisionProjection)
    → All (λ row. All IsInert (after_id row)) (read_csv (build_csv_text ps))
read_csv-IsInert ps =
    subst (All (λ row. All IsInert (after_id row))) (sym (read_csv-build_csv_text ps))
      (columns-IsInert, rows-IsInert ps)
