-- ===== src/Revisions/Query.antt =====
-- The two queries (backend/governance/joint_revision_query.py). `read` is the bulk adapter, with the
-- state of what it reads passed on, so that a query that reads nothing leaves it alone.
pub mod Paging
pub mod Trimming
pub mod Bounds
pub mod Validation
pub mod Order
use torq_pro.Prelude.{
  ◌≡◌, ℕ, zero, suc, ◌+◌, ◌-◌, ◌*◌, ◌/◌, ◌%◌, String, Bool, true, false, ◌&&◌, ◌||◌, not, Option,
  none, some, List, [], ◌∷◌, ◌++◌, map, ℤ, pos, negsuc, string_eq, ◌==◌, if◌then◌else◌, ltb, leb,
  eqb, length, filter, contains, codes, is_space, Result, ok, err, ◌>>=◌, guard, ◌>>◌,
}
use torq_pro.Revisions.Arguments.{
  Object, ValidationError, validate_page, validate_page_size, validate_sort_by, validate_sort_order,
}
use torq_pro.Revisions.Selection.{normalize_search, searched, sorted_projections}
use torq_pro.Revisions.Pages.{QueryResult, paginate}
use torq_pro.Revisions.Projection.{JointRevisionProjection}

module _ (lower : List ℕ → List ℕ) {S : Type 0}
    (read : Option ℤ → S → List JointRevisionProjection × S) where
  abbrev pub found :
      String
      → String
      → Option (List ℕ)
      → List JointRevisionProjection × S
      → Result ValidationError (List JointRevisionProjection) × S
  found sort_by sort_order search (projections, s) = (
    ok (
        sorted_projections lower (searched lower (normalize_search lower search) projections)
          sort_by sort_order),
    s,
  )

  -- `query_all_joint_revision_projections`
  unfoldable pub query_all :
      Option ℤ
      → Option (List ℕ)
      → Object
      → Object
      → S
      → Result ValidationError (List JointRevisionProjection) × S
  unfolding validate_sort_by validate_sort_order normalize_search searched sorted_projections
  query_all joint_id search sort_by sort_order s = elim (validate_sort_by sort_by) [
    | err e ↦ (err e, s)
    | ok field ↦ elim (validate_sort_order sort_order) [
      | err e ↦ (err e, s)
      | ok order ↦ found field order search (read joint_id s)
    ]
  ]

  abbrev pub paged :
      ℕ
      → ℕ
      → Result ValidationError (List JointRevisionProjection) × S
      → Result ValidationError QueryResult × S
  paged page page_size (err e, s) = (err e, s)
  paged page page_size (ok sorted_items, s) = (ok (paginate sorted_items page page_size), s)

  -- `query_joint_revision_projections`
  unfoldable pub query :
      Option ℤ
      → Option (List ℕ)
      → Object
      → Object
      → Object
      → Object
      → S
      → Result ValidationError QueryResult × S
  unfolding validate_page validate_page_size query_all paginate
  query joint_id search sort_by sort_order page page_size s = elim (validate_page page) [
    | err e ↦ (err e, s)
    | ok validated_page ↦ elim (validate_page_size page_size) [
      | err e ↦ (err e, s)
      | ok validated_page_size ↦
          paged validated_page validated_page_size (query_all joint_id search sort_by sort_order s)
    ]
  ]
