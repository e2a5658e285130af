-- ===== src/Revisions/Routes.antt =====
-- The read routes of joint revisions (backend/governance/api.py): a projection, the bulk, the query
-- and the export, with the status of each answer. The framework has parsed the path and the query
-- string, so a page is an int and a sort field a text; it refuses a page or a page size out of range
-- with 422 of its own, before the handler, which is modelled for every int.
use torq_pro.Prelude.{
  ◌≡◌, refl, ℕ, String, Bool, true, false, ◌&&◌, Option, none, some, List, ℤ, string_eq, ◌==◌,
  if◌then◌else◌, Result, ok, err, Bool-cases, inl, inr, Option-cases,
}
use torq_pro.Revisions.Source.{Field, Row, ReadError}
use torq_pro.Revisions.Arguments.{Object, ValidationError}
use torq_pro.Revisions.Projection.{
  JointRevisionProjection, JointService, ProjectionOutcome, outcome_value, status_map,
  unsupported_or_invalid, project_status, project_read, project_joint_revision,
  project_joint_revisions_bulk,
}
use torq_pro.Revisions.Pages.{QueryResult}
use torq_pro.Revisions.Query.{query}
use torq_pro.Revisions.Export.{export_csv}

-- A response: a status with a body, an HTTPException, or an exception that nothing catches.
pub data Response {ℓ} (A : Type ℓ) : Type ℓ where
  reply : ℕ → A → Response A
  refused : ℕ → Response A
  crashed : Response A

-- `_JOINT_REVISION_OUTCOME_STATUS`; `none` is a KeyError.
unfoldable pub joint_revision_outcome_status : String → Option ℕ
unfolding outcome_value
joint_revision_outcome_status outcome =
    if outcome == outcome_value ProjectionOutcome.supported
    then some 200
    else if outcome == outcome_value ProjectionOutcome.unsupported_status
    then some 200
    else if outcome == outcome_value ProjectionOutcome.invalid_source_record
    then some 200
    else if outcome == outcome_value ProjectionOutcome.source_unavailable
    then some 200
    else if outcome == outcome_value ProjectionOutcome.not_found
    then some 404
    else none

unfoldable pub respond : JointRevisionProjection → Response JointRevisionProjection
unfolding joint_revision_outcome_status
respond projection = elim (joint_revision_outcome_status projection.outcome) [
  | none ↦ Response.crashed
  | some status ↦ Response.reply status projection
]

-- `GET /joint-revision/{revision_id}`
unfoldable pub governance_joint_revision : JointService → ℤ → Response JointRevisionProjection
unfolding respond project_joint_revision
governance_joint_revision service revision_id = respond (project_joint_revision service revision_id)

-- `GET /joint-revisions`
unfoldable pub governance_joint_revisions_bulk :
    JointService → Option ℤ → Response (List JointRevisionProjection)
unfolding project_joint_revisions_bulk
governance_joint_revisions_bulk service joint_id =
    Response.reply 200 (project_joint_revisions_bulk service joint_id)

module _ {S : Type 0} where
  abbrev or_422 {ℓ} : {A : Type ℓ} → Result ValidationError A × S → Response A × S
  or_422 (ok a, s) = (Response.reply 200 a, s)
  or_422 (err e, s) = (Response.refused 422, s)

  module _ (lower : List ℕ → List ℕ) (read : Option ℤ → S → List JointRevisionProjection × S) where
    -- `GET /joint-revisions/query`
    unfoldable pub governance_joint_revisions_query :
        Option ℤ → Option (List ℕ) → String → String → ℤ → ℤ → S → Response QueryResult × S
    unfolding query
    governance_joint_revisions_query joint_id search sort_by sort_order page page_size s = or_422 (
        query lower read joint_id search (Object.text sort_by) (Object.text sort_order)
          (Object.integer page) (Object.integer page_size) s)

    -- `GET /joint-revisions/export.csv`
    unfoldable pub governance_joint_revisions_export_csv :
        Option ℤ → Option (List ℕ) → String → String → S → Response (List ℕ) × S
    unfolding export_csv
    governance_joint_revisions_export_csv joint_id search sort_by sort_order s =
        or_422
          (export_csv lower read joint_id search (Object.text sort_by) (Object.text sort_order) s)

-- Whether the service was asked and knew no such revision.
unfoldable pub is_missing : JointService → ℤ → Bool
is_missing service revision_id =
    service.importable && elim (service.get_joint_revision revision_id) [
      | err (ReadError.not_found _) ↦ true
      | _ ↦ false
    ]

unsupported_or_invalid-respond :
    (revision_id : ℤ) (status : Field)
    → respond (unsupported_or_invalid status revision_id)
      ≡ Response.reply 200 (unsupported_or_invalid status revision_id)
unfolding respond unsupported_or_invalid
unsupported_or_invalid-respond revision_id Field.other = refl
unsupported_or_invalid-respond revision_id (Field.text status) = elim (Bool-cases (status == "")) [
  | inl e ↦ rw (unsupported_or_invalid, e) refl
  | inr e ↦ rw (unsupported_or_invalid, e) refl
]

project_status-respond :
    (revision_id : ℤ) (status : Field)
    → respond (project_status revision_id status)
      ≡ Response.reply 200 (project_status revision_id status)
unfolding project_status respond
project_status-respond revision_id Field.other =
    unsupported_or_invalid-respond revision_id Field.other
project_status-respond revision_id (Field.text status) = elim (Option-cases (status_map status)) [
  | inl e ↦ rw (project_status, e) (unsupported_or_invalid-respond revision_id (Field.text status))
  | inr (canonical, e) ↦ rw (project_status, e) refl
]

-- The route of one revision never crashes: it answers with the projection, under the status 404 if the
-- service knew no such revision and under 200 in every other case.
pub governance_joint_revision-replies :
    (service : JointService) (revision_id : ℤ)
    → governance_joint_revision service revision_id
      ≡ Response.reply
          (if is_missing service revision_id then 404 else 200)
          (project_joint_revision service revision_id)
unfolding governance_joint_revision is_missing
governance_joint_revision-replies service revision_id = elim (Bool-cases service.importable) [
  | inl e ↦ rw (project_joint_revision, e) (read (service.get_joint_revision revision_id))
  | inr e ↦ rw (project_joint_revision, e) refl
]
  where
    read :
        (r : Result ReadError (Option Row))
        → respond (project_read revision_id r)
          ≡ Response.reply
              (if (elim r [ err (ReadError.not_found _) ↦ true | _ ↦ false ]) then 404 else 200)
              (project_read revision_id r)
    read (err (ReadError.not_found i)) = refl
    read (err ReadError.read_failure) = refl
    read (ok none) = unsupported_or_invalid-respond revision_id Field.other
    read (ok (some row)) = project_status-respond revision_id row.status
