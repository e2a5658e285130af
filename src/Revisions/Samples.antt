-- ===== src/Revisions/Samples.antt =====
-- A small table of revisions, and runs of the adapter, the queries and the export on it.
use torq_pro.Prelude.{
  ◌≡◌, refl, ℕ, suc, ◌+◌, true, ◌&&◌, Option, none, some, List, [], ◌∷◌, map, ℤ, pos, if◌then◌else◌,
  leb, codes, is_space, Result, ok, err,
}
use torq_pro.Revisions.Source.{Row, Field, int_lt}
use torq_pro.Revisions.Projection.{
  JointRevisionProjection, JointService, project_joint_revisions_bulk,
}
use torq_pro.Revisions.Projection.Tables.{table_service}
use torq_pro.Revisions.Arguments.{Object, ValidationError}
use torq_pro.Revisions.Selection.{sorted_projections}
use torq_pro.Revisions.Pages.{QueryResult, paginate}
use torq_pro.Revisions.Query.{query, query_all}
use torq_pro.Revisions.Export.{
  build_csv_text, csv_columns, projection_to_row, write_row, safe_csv_cell, encode,
}
use torq_pro.Revisions.Export.Reading.{read_csv}
use torq_pro.Revisions.Routes.{is_missing}

abbrev pub row : ℤ → ℤ → Field → Row
row id joint_id status = record { id = id; joint_id = joint_id; status = status }

abbrev pub rows : List Row
rows =
    row (pos 2) (pos 7) (Field.text "review")
    ∷ row (pos 1) (pos 7) (Field.text "approved")
    ∷ row (pos 3) (pos 8) (Field.text "draft")
    ∷ row (pos 4) (pos 7) Field.other
    ∷ row (pos 5) (pos 7) (Field.text "withdrawn")
    ∷ []

abbrev pub service : JointService
service = table_service (some rows)

-- `str.lower` on ASCII
abbrev pub ascii_lower : List ℕ → List ℕ
ascii_lower cs = map (λ c. if leb 65 c && leb c 90 then c + 32 else c) cs

-- The adapter, counting its reads.
abbrev pub read : Option ℤ → ℕ → List JointRevisionProjection × ℕ
read joint_id reads = (project_joint_revisions_bulk service joint_id, suc reads)

abbrev pub by_status : List JointRevisionProjection
by_status =
    sorted_projections ascii_lower (project_joint_revisions_bulk service (some (pos 7)))
      "canonical_status" "desc"

abbrev pub page_ids : Result ValidationError QueryResult × ℕ → List ℤ × ℕ
page_ids (ok r, n) = (map (λ p. p.joint_revision_id) r.items, r.total_pages)
page_ids (err e, n) = ([], n)

first_page_runs :
    page_ids (
      query ascii_lower read
        (some (pos 7))
        none
        (Object.text "canonical_status")
        (Object.text "desc")
        (Object.integer (pos 1))
        (Object.integer (pos 3))
        0)
    ≡ (pos 2 ∷ pos 1 ∷ pos 4 ∷ [], 2)
unfolding query project_joint_revisions_bulk table_service is_space int_lt
first_page_runs = refl

search_runs :
    page_ids (
      query ascii_lower read none
        (some (codes " VOCABULARY "))
        (Object.text "outcome")
        (Object.text "asc")
        (Object.integer (pos 1))
        (Object.integer (pos 3))
        0)
    ≡ (pos 5 ∷ [], 1)
unfolding query project_joint_revisions_bulk table_service is_space int_lt
search_runs = refl

bad_page_runs :
    page_ids (
      query ascii_lower read none none
        (Object.text "outcome")
        (Object.text "asc")
        (Object.boolean true)
        (Object.integer (pos 3))
        0)
    ≡ ([], 0)
unfolding query project_joint_revisions_bulk table_service is_space int_lt
bad_page_runs = refl

pub by_status-query_all :
    (query_all ascii_lower read
      (some (pos 7))
      none
      (Object.text "canonical_status")
      (Object.text "desc")
      0).0
    ≡ ok by_status
unfolding query_all
by_status-query_all = refl

pub last_page :
    query ascii_lower read
      (some (pos 7))
      none
      (Object.text "canonical_status")
      (Object.text "desc")
      (Object.integer (pos 2))
      (Object.integer (pos 3))
      0
    ≡ (ok (paginate by_status 2 3), 1)
unfolding query
last_page = refl

export_runs : read_csv (build_csv_text by_status) ≡ csv_columns ∷ map projection_to_row by_status
unfolding build_csv_text read_csv sorted_projections project_joint_revisions_bulk table_service
    is_space int_lt
export_runs = refl

quoted_cell_runs :
    read_csv (write_row (codes "a,\"b" ∷ [] ∷ safe_csv_cell (some (codes " =1+1")) ∷ []))
    ≡ (codes "a,\"b" ∷ [] ∷ codes "' =1+1" ∷ []) ∷ []
unfolding write_row read_csv safe_csv_cell is_space
quoted_cell_runs = refl

utf8_runs :
    encode (0x131 ∷ 0x20ac ∷ 0x1f600 ∷ [])
    ≡ 196 ∷ 177 ∷ 226 ∷ 130 ∷ 172 ∷ 240 ∷ 159 ∷ 152 ∷ 128 ∷ []
unfolding encode
utf8_runs = refl

missing_runs : is_missing service (pos 9) ≡ true
unfolding is_missing table_service
missing_runs = refl
