-- ===== src/Revisions/Export.antt =====
-- The CSV export of projections (backend/governance/joint_revision_csv.py), with what it uses of
-- Python's csv.writer: QUOTE_MINIMAL, which quotes a field that has a comma, a quote, a CR or an LF in
-- it, and the line end CR LF. Texts are lists of code points.
pub mod Bytes
pub mod Pages
pub mod Reading
pub mod Safety
use torq_pro.Prelude.{
  ◌≡◌, refl, ap, sym, subst, ◌∙◌, ℕ, zero, suc, ◌+◌, ◌-◌, ◌*◌, ◌/◌, ◌%◌, String, Bool, true, false,
  ◌&&◌, ◌||◌, not, Option, none, some, List, [], ◌∷◌, ◌++◌, map, ℤ, arith, All, inl, inr,
  Bool-cases, if◌then◌else◌, ltb, eqb, is_space, codes, Result, ok, err, append-nil, append_assoc,
}
use torq_pro.Governance.Enums.{LifecycleGroup, group_value}
use torq_pro.Revisions.Texts.{str, skip_spaces}
use torq_pro.Revisions.Arguments.{Object, ValidationError}
use torq_pro.Revisions.Projection.{JointRevisionProjection}
use torq_pro.Revisions.Query.{query_all}

unfoldable pub csv_columns : List (List ℕ)
csv_columns =
    codes "joint_revision_id"
    ∷ codes "source_system"
    ∷ codes "source_status"
    ∷ codes "lifecycle_group"
    ∷ codes "canonical_status"
    ∷ codes "outcome"
    ∷ codes "safe_reason"
    ∷ []

-- `=`, `+`, `-` and `@`
unfoldable pub is_trigger : ℕ → Bool
is_trigger c = eqb c 61 || (eqb c 43 || (eqb c 45 || eqb c 64))

-- Whether a spreadsheet could take a cell for a formula: spaces, then a trigger.
unfoldable pub first_is_trigger : List ℕ → Bool
unfolding is_trigger
first_is_trigger [] = false
first_is_trigger (c ∷ cs) = is_trigger c

-- `_safe_csv_cell`, on the value's `str`
unfoldable pub safe_csv_cell : Option (List ℕ) → List ℕ
unfolding skip_spaces first_is_trigger
safe_csv_cell none = []
safe_csv_cell (some text) = if first_is_trigger (skip_spaces text) then 39 ∷ text else text

abbrev text_of : Option String → Option (List ℕ)
text_of none = none
text_of (some s) = some (codes s)

abbrev lifecycle_text : Option LifecycleGroup → Option (List ℕ)
lifecycle_text none = none
lifecycle_text (some group) = some (codes (group_value group))

-- The columns that the guard goes over: all but the id.
unfoldable pub guarded_cells : JointRevisionProjection → List (List ℕ)
unfolding safe_csv_cell group_value
guarded_cells p =
    safe_csv_cell (some (codes p.source_system))
    ∷ safe_csv_cell (text_of p.source_status)
    ∷ safe_csv_cell (lifecycle_text p.lifecycle_group)
    ∷ safe_csv_cell (text_of p.canonical_status)
    ∷ safe_csv_cell (some (codes p.outcome))
    ∷ safe_csv_cell (text_of p.safe_reason)
    ∷ []

-- `_projection_to_row`
unfoldable pub projection_to_row : JointRevisionProjection → List (List ℕ)
unfolding str guarded_cells
projection_to_row p = str p.joint_revision_id ∷ guarded_cells p

unfoldable pub is_special : ℕ → Bool
is_special c = eqb c 44 || (eqb c 34 || (eqb c 13 || eqb c 10))

unfoldable pub needs_quotes : List ℕ → Bool
unfolding is_special
needs_quotes [] = false
needs_quotes (c ∷ cs) = is_special c || needs_quotes cs

unfoldable pub doubled : List ℕ → List ℕ
doubled [] = []
doubled (c ∷ cs) = let rest = doubled cs in if eqb c 34 then 34 ∷ 34 ∷ rest else c ∷ rest

unfoldable pub write_field : List ℕ → List ℕ
unfolding needs_quotes doubled
write_field field = if needs_quotes field then 34 ∷ (doubled field ++ (34 ∷ [])) else field

-- The fields of a row after its first one, each after a comma, and the line end.
unfoldable pub write_rest : List (List ℕ) → List ℕ
unfolding write_field
write_rest [] = 13 ∷ 10 ∷ []
write_rest (field ∷ fields) = 44 ∷ (write_field field ++ write_rest fields)

-- `writer.writerow`; each row that the export writes has seven fields.
unfoldable pub write_row : List (List ℕ) → List ℕ
unfolding write_field write_rest
write_row [] = 13 ∷ 10 ∷ []
write_row (field ∷ fields) = write_field field ++ write_rest fields

unfoldable pub write_rows : List (List (List ℕ)) → List ℕ
unfolding write_row
write_rows [] = []
write_rows (row ∷ rows) = write_row row ++ write_rows rows

-- `_build_csv_text`
unfoldable pub build_csv_text : List JointRevisionProjection → List ℕ
unfolding csv_columns projection_to_row write_rows
build_csv_text projections = write_rows (csv_columns ∷ map projection_to_row projections)

-- The UTF-8 of a code point; a text of the database has no surrogates.
unfoldable pub utf8 : ℕ → List ℕ
utf8 c =
    if ltb c 0x80
    then c ∷ []
    else if ltb c 0x800
    then (192 + c / 64) ∷ (128 + c % 64) ∷ []
    else if ltb c 0x10000
    then (224 + c / 4096) ∷ (128 + c / 64 % 64) ∷ (128 + c % 64) ∷ []
    else (240 + c / 262144) ∷ (128 + c / 4096 % 64) ∷ (128 + c / 64 % 64) ∷ (128 + c % 64) ∷ []

unfoldable pub encode : List ℕ → List ℕ
unfolding utf8
encode [] = []
encode (c ∷ cs) = utf8 c ++ encode cs

-- `UTF8_BOM + text.encode("utf-8")`
unfoldable pub serialize_csv : List JointRevisionProjection → List ℕ
unfolding build_csv_text encode
serialize_csv projections = 239 ∷ 187 ∷ 191 ∷ encode (build_csv_text projections)

module _ (lower : List ℕ → List ℕ) {S : Type 0}
    (read : Option ℤ → S → List JointRevisionProjection × S) where
  abbrev pub serialized :
      Result ValidationError (List JointRevisionProjection) × S
      → Result ValidationError (List ℕ) × S
  serialized (err e, s) = (err e, s)
  serialized (ok projections, s) = (ok (serialize_csv projections), s)

  -- `export_joint_revision_projections_csv`
  unfoldable pub export_csv :
      Option ℤ → Option (List ℕ) → Object → Object → S → Result ValidationError (List ℕ) × S
  unfolding query_all serialize_csv
  export_csv joint_id search sort_by sort_order s =
      serialized (query_all lower read joint_id search sort_by sort_order s)
