-- ===== src/Revisions/Export/Pages.antt =====
-- The export and the pages of the query (backend/governance/joint_revision_csv.py).
use torq_pro.Prelude.{◌≡◌, ap, sym, ◌∙◌, ℕ, ◌≤◌, Option, List, length, ℤ, Result, ok, err}
use torq_pro.Revisions.Arguments.{Object, ValidationError}
use torq_pro.Revisions.Projection.{JointRevisionProjection}
use torq_pro.Revisions.Pages.{ceil_div}
use torq_pro.Revisions.Query.{query_all}
use torq_pro.Revisions.Query.Paging.{pages, pages-query_all}
use torq_pro.Revisions.Export.{serialize_csv, export_csv, serialized}

module _ (lower : List ℕ → List ℕ) {S : Type 0}
    (read : Option ℤ → S → List JointRevisionProjection × S) where
  serialized-ok :
      (r : Result ValidationError (List JointRevisionProjection) × S)
      (xs : List JointRevisionProjection)
      → r.0 ≡ ok xs
      → (serialized lower read r).0 ≡ ok (serialize_csv xs)
  serialized-ok (ok ys, s) xs h = ap (λ r. (serialized lower read (r, s)).0) h
  serialized-ok (err e, s) xs h = cc

  -- Where the unpaged query answers, the export is the file of all the pages of the query, whatever
  -- the page size from 1 to 200: nothing is cut off.
  pub export_csv-pages :
      (joint_id : Option ℤ) (search : Option (List ℕ)) (sort_by sort_order : Object) (page_size : ℕ)
      (s : S) (xs : List JointRevisionProjection)
      → 1 ≤ page_size
      → page_size ≤ 200
      → (query_all lower read joint_id search sort_by sort_order s).0 ≡ ok xs
      → (export_csv lower read joint_id search sort_by sort_order s).0
        ≡ ok (
            serialize_csv (
              pages lower read joint_id search sort_by sort_order
                (ceil_div (length xs) page_size)
                page_size
                s))
  unfolding export_csv
  export_csv-pages joint_id search sort_by sort_order page_size s xs h i e =
      serialized-ok (query_all lower read joint_id search sort_by sort_order s) xs e
      ∙ ap (λ ys. ok (serialize_csv ys))
          (sym (pages-query_all lower read joint_id search sort_by sort_order page_size s xs h i e))
