-- ===== src/Revisions/Tests.antt =====
-- The theorems on joint revisions at the small table of Samples.
use torq_pro.Prelude.{
  Ordered, ◌≡◌, refl, true, false, none, some, ◌∷◌, ◌++◌, map, pos, arith, all, All, if◌then◌else◌,
  codes, is_space, ok, length,
}
use mathlib.Core.List.{Permᴰ}
use torq_pro.Revisions.Source.{int_lt, of_joint}
use torq_pro.Revisions.Sorting.{sorted}
use torq_pro.Revisions.Projection.{
  project_joint_revision, project_joint_revisions_bulk, project_status,
}
use torq_pro.Revisions.Projection.Consistency.{IsConsistent, project_joint_revision-IsConsistent}
use torq_pro.Revisions.Projection.Tables.{table_service, bulk-table}
use torq_pro.Revisions.Arguments.{Object}
use torq_pro.Revisions.Selection.Order.{query_order}
use torq_pro.Revisions.Pages.{ceil_div, paginate}
use torq_pro.Revisions.Query.{query, query_all}
use torq_pro.Revisions.Query.Validation.{allows, succeeds, query-allows}
use torq_pro.Revisions.Query.Paging.{pages, pages-query_all}
use torq_pro.Revisions.Query.Bounds.{IsBounded, query-IsBounded}
use torq_pro.Revisions.Query.Order.{selected, query_all-Ordered}
use torq_pro.Revisions.Query.Trimming.{query_all-surrounded}
use torq_pro.Revisions.Export.{
  build_csv_text, csv_columns, projection_to_row, serialize_csv, export_csv,
}
use torq_pro.Revisions.Export.Reading.{read_csv}
use torq_pro.Revisions.Export.Bytes.{decode, without_mark, read_csv-serialize_csv}
use torq_pro.Revisions.Export.Pages.{export_csv-pages}
use torq_pro.Revisions.Routes.{
  Response, governance_joint_revision, is_missing, governance_joint_revision-replies,
}
use torq_pro.Revisions.Export.Safety.{IsInert, after_id, read_csv-IsInert}
use torq_pro.Revisions.Samples.{
  rows, service, ascii_lower, read, by_status, by_status-query_all, last_page,
}

project_joint_revision-IsConsistent_example :
    IsConsistent (pos 5) (project_joint_revision service (pos 5))
project_joint_revision-IsConsistent_example = project_joint_revision-IsConsistent service (pos 5)

bulk-table_example :
    project_joint_revisions_bulk (table_service (some rows)) (some (pos 7))
    ≡ map
        (λ r. project_status r.id r.status)
        (sorted (λ r s. int_lt r.id s.id) (of_joint (some (pos 7)) rows))
bulk-table_example = bulk-table rows (some (pos 7)) (
  (refl, (refl, (refl, (refl, tt)))),
  ((refl, (refl, (refl, tt))), ((refl, (refl, tt)), ((refl, tt), (tt, tt)))),
)

query-allows_example :
    (succeeds
        (query ascii_lower read none none
          (Object.text "outcome")
          (Object.text "desc")
          (Object.integer (pos 1))
          (Object.integer (pos 201))
          0).0
      ≡ allows
          (Object.text "outcome")
          (Object.text "desc")
          (Object.integer (pos 1))
          (Object.integer (pos 201)))
    × (allows
            (Object.text "outcome")
            (Object.text "desc")
            (Object.integer (pos 1))
            (Object.integer (pos 201))
          ≡ false
        → (query ascii_lower read none none
            (Object.text "outcome")
            (Object.text "desc")
            (Object.integer (pos 1))
            (Object.integer (pos 201))
            0).1
          ≡ 0)
query-allows_example =
    query-allows ascii_lower read none none (Object.text "outcome") (Object.text "desc")
      (Object.integer (pos 1)) (Object.integer (pos 201)) 0

pages-query_all_example :
    pages ascii_lower read
      (some (pos 7))
      none
      (Object.text "canonical_status")
      (Object.text "desc")
      (ceil_div (length by_status) 3)
      3
      0
    ≡ by_status
pages-query_all_example =
    pages-query_all ascii_lower read (some (pos 7)) none (Object.text "canonical_status")
      (Object.text "desc") 3 0 by_status (omega arith) (omega arith) by_status-query_all

query_all-Ordered_example :
    Permᴰ by_status (selected ascii_lower read (some (pos 7)) none 0)
    × Ordered (λ p q. query_order ascii_lower "canonical_status" "desc" p q ≡ true) by_status
query_all-Ordered_example =
    query_all-Ordered ascii_lower read (some (pos 7)) none "canonical_status" "desc" 0 by_status
      by_status-query_all

query-IsBounded_example : IsBounded (paginate by_status 2 3)
query-IsBounded_example =
    query-IsBounded ascii_lower read (some (pos 7)) none (Object.text "canonical_status")
      (Object.text "desc") (Object.integer (pos 2)) (Object.integer (pos 3)) 0
      (paginate by_status 2 3) (cc last_page)

query_all-surrounded_example :
    query_all ascii_lower read none
      (some (codes " " ++ (codes "Draft" ++ codes "  ")))
      (Object.text "outcome")
      (Object.text "asc")
      0
    ≡ query_all ascii_lower read none
        (some (codes "Draft"))
        (Object.text "outcome")
        (Object.text "asc")
        0
unfolding is_space all
query_all-surrounded_example =
    query_all-surrounded ascii_lower read none (codes " ") (codes "Draft") (codes "  ")
      (Object.text "outcome") (Object.text "asc") 0 refl refl

read_csv-serialize_csv_example :
    read_csv (without_mark (decode 0 0 (serialize_csv by_status)))
    ≡ csv_columns ∷ map projection_to_row by_status
read_csv-serialize_csv_example = read_csv-serialize_csv by_status

export_csv-pages_example :
    (export_csv ascii_lower read
      (some (pos 7))
      none
      (Object.text "canonical_status")
      (Object.text "desc")
      0).0
    ≡ ok (
        serialize_csv (
          pages ascii_lower read
            (some (pos 7))
            none
            (Object.text "canonical_status")
            (Object.text "desc")
            (ceil_div (length by_status) 3)
            3
            0))
export_csv-pages_example =
    export_csv-pages ascii_lower read (some (pos 7)) none (Object.text "canonical_status")
      (Object.text "desc") 3 0 by_status (omega arith) (omega arith) by_status-query_all

governance_joint_revision-replies_example :
    governance_joint_revision service (pos 9)
    ≡ Response.reply
        (if is_missing service (pos 9) then 404 else 200)
        (project_joint_revision service (pos 9))
governance_joint_revision-replies_example = governance_joint_revision-replies service (pos 9)

read_csv-IsInert_example :
    All (λ cells. All IsInert (after_id cells)) (read_csv (build_csv_text by_status))
read_csv-IsInert_example = read_csv-IsInert by_status
