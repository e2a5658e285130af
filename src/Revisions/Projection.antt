-- ===== src/Revisions/Projection.antt =====
-- The read-only adapter of joint revisions (backend/governance/adapters/joint_revision.py). Each
-- read has its own answer: a row may change or vanish between the listing and its own read.
pub mod Consistency
pub mod Tables
use torq_pro.Prelude.{
  ◌≡◌, ℕ, String, Bool, Option, none, some, List, [], ◌∷◌, map, ℤ, string_eq, ◌==◌, if◌then◌else◌,
  Result, ok, err,
}
use Prim.Native.String.{◌++◌ as push_str}
use torq_pro.Governance.Enums.{LifecycleGroup, ReviewStatus, review_value}
use torq_pro.Revisions.Source.{Field, Row, ReadError}

-- `ProjectionOutcome`
pub data ProjectionOutcome : Type 0 where
  supported not_found unsupported_status invalid_source_record source_unavailable :
      ProjectionOutcome

unfoldable pub outcome_value : ProjectionOutcome → String
outcome_value ProjectionOutcome.supported = "supported"
outcome_value ProjectionOutcome.not_found = "not_found"
outcome_value ProjectionOutcome.unsupported_status = "unsupported_status"
outcome_value ProjectionOutcome.invalid_source_record = "invalid_source_record"
outcome_value ProjectionOutcome.source_unavailable = "source_unavailable"

-- `JOINT_REVISION_STATUSES` (backend/joints/schema.py)
unfoldable pub joint_revision_statuses : List String
joint_revision_statuses = "draft" ∷ "review" ∷ "approved" ∷ "rejected" ∷ []

-- `_STATUS_MAP.get`
unfoldable pub status_map : String → Option ReviewStatus
status_map status =
    if status == "draft"
    then some ReviewStatus.draft
    else if status == "review"
    then some ReviewStatus.under_review
    else if status == "approved"
    then some ReviewStatus.approved
    else if status == "rejected"
    then some ReviewStatus.rejected
    else none

pub record JointRevisionProjection : Type 0 where
  pub source_system : String
  pub joint_revision_id : ℤ
  pub source_status : Option String
  pub lifecycle_group : Option LifecycleGroup
  pub canonical_status : Option String
  pub outcome : String
  pub safe_reason : Option String

-- A projection without a canonical status.
unfoldable pub without_status :
    ℤ → Option String → ProjectionOutcome → String → JointRevisionProjection
unfolding outcome_value
without_status revision_id source_status outcome safe_reason = record {
  source_system = "joint_revision";
  joint_revision_id = revision_id;
  source_status = source_status;
  lifecycle_group = none;
  canonical_status = none;
  outcome = outcome_value outcome;
  safe_reason = some safe_reason;
}

-- `_unsupported_or_invalid`
unfoldable pub unsupported_or_invalid : Field → ℤ → JointRevisionProjection
unfolding without_status
unsupported_or_invalid Field.other revision_id =
    without_status revision_id none ProjectionOutcome.invalid_source_record
      "Source record is missing a valid status value."
unsupported_or_invalid (Field.text status) revision_id =
    if status == ""
    then without_status revision_id none ProjectionOutcome.invalid_source_record
        "Source record is missing a valid status value."
    else without_status revision_id (some status) ProjectionOutcome.unsupported_status
        (push_str (push_str "Source status '" status) "' is not in the supported vocabulary.")

-- The end of `project_joint_revision`, for the record's status.
unfoldable pub project_status : ℤ → Field → JointRevisionProjection
unfolding status_map unsupported_or_invalid outcome_value review_value
project_status revision_id Field.other = unsupported_or_invalid Field.other revision_id
project_status revision_id (Field.text status) = elim (status_map status) [
  | none ↦ unsupported_or_invalid (Field.text status) revision_id
  | some canonical ↦ record {
    source_system = "joint_revision";
    joint_revision_id = revision_id;
    source_status = some status;
    lifecycle_group = some LifecycleGroup.review;
    canonical_status = some (review_value canonical);
    outcome = outcome_value ProjectionOutcome.supported;
    safe_reason = none;
  }
]

-- The module `backend.joints.service` as the adapter meets it: whether its import succeeds, and
-- what each read answers or raises. A read that is no dict is `none`.
pub record JointService : Type 0 where
  pub importable : Bool
  pub get_joint_revision : ℤ → Result ReadError (Option Row)
  pub list_joint_revisions : Option ℤ → Result ReadError (List Row)

-- The part of `project_joint_revision` after the read.
unfoldable pub project_read : ℤ → Result ReadError (Option Row) → JointRevisionProjection
unfolding without_status project_status unsupported_or_invalid
project_read revision_id (err (ReadError.not_found _)) =
    without_status revision_id none ProjectionOutcome.not_found
      "No joint revision exists with this id."
project_read revision_id (err ReadError.read_failure) =
    without_status revision_id none ProjectionOutcome.source_unavailable
      "Joint revision source data could not be read."
project_read revision_id (ok none) = unsupported_or_invalid Field.other revision_id
project_read revision_id (ok (some record_read)) = project_status revision_id record_read.status

unfoldable pub project_joint_revision : JointService → ℤ → JointRevisionProjection
unfolding without_status project_read
project_joint_revision service revision_id =
    if service.importable
    then project_read revision_id (service.get_joint_revision revision_id)
    else without_status revision_id none ProjectionOutcome.source_unavailable
        "Joint revision source module is unavailable."

unfoldable pub project_joint_revisions_bulk : JointService → Option ℤ → List JointRevisionProjection
unfolding project_joint_revision
project_joint_revisions_bulk service joint_id =
    if service.importable
    then elim (service.list_joint_revisions joint_id) [
      | err _ ↦ []
      | ok revisions ↦ map (λ r. project_joint_revision service r.id) revisions
    ]
    else []
