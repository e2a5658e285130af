-- ===== src/Revisions/Projection/Consistency.antt =====
-- What every projection keeps (backend/governance/adapters/joint_revision.py).
use torq_pro.Prelude.{
  ◌≡◌, refl, ap, sym, String, Bool, true, false, not, Option, none, some, ℤ, inl, inr, Bool-cases,
  Option-cases, ◌==◌, string_eq, int_eq, option_eq, Result, ok, err,
}
use mathlib.Core.Option
use torq_pro.Governance.Enums.{review_value}
use torq_pro.Revisions.Source.{Field, Row, ReadError}
use torq_pro.Revisions.Projection.{
  JointRevisionProjection, JointService, ProjectionOutcome, outcome_value, without_status,
  unsupported_or_invalid, project_status, project_read, project_joint_revision, status_map,
}

-- The value of a status that the source knows.
unfoldable pub canonical_of : Option String → Option String
unfolding status_map review_value
canonical_of none = none
canonical_of (some status) = Option.map review_value (status_map status)

abbrev pub is_known {ℓ} : {A : Type ℓ} → Option A → Bool
is_known none = false
is_known (some a) = true

-- A projection has the canonical status of its source status; it has one, and a lifecycle group,
-- exactly if it is supported, and a reason exactly if it is not.
pub record IsConsistent (revision_id : ℤ) (p : JointRevisionProjection) : Type 0 where
  pub same_id : p.joint_revision_id ≡ revision_id
  pub canonical : p.canonical_status ≡ canonical_of p.source_status
  pub with_status : is_known p.canonical_status ≡ (p.outcome == "supported")
  pub with_group : is_known p.lifecycle_group ≡ (p.outcome == "supported")
  pub with_reason : is_known p.safe_reason ≡ not (p.outcome == "supported")

without_status-IsConsistent :
    (revision_id : ℤ) (source : Option String) (outcome : ProjectionOutcome) (reason : String)
    → canonical_of source ≡ none
    → (outcome_value outcome == "supported") ≡ false
    → IsConsistent revision_id (without_status revision_id source outcome reason)
unfolding without_status
without_status-IsConsistent revision_id source outcome reason h i = record {
  same_id = refl;
  canonical = sym h;
  with_status = sym i;
  with_group = sym i;
  with_reason = ap not (sym i);
}

unsupported_or_invalid-IsConsistent :
    (revision_id : ℤ) (status : String)
    → status_map status ≡ none
    → IsConsistent revision_id (unsupported_or_invalid (Field.text status) revision_id)
unfolding unsupported_or_invalid canonical_of outcome_value
unsupported_or_invalid-IsConsistent revision_id status h = elim (Bool-cases (status == "")) [
  | inl e ↦
      rw (unsupported_or_invalid, e)
        (without_status-IsConsistent revision_id none ProjectionOutcome.invalid_source_record _ refl
          refl)
  | inr e ↦
      rw (unsupported_or_invalid, e)
        (without_status-IsConsistent revision_id (some status) ProjectionOutcome.unsupported_status
          _ (ap (Option.map review_value) h) refl)
]

project_status-IsConsistent :
    (revision_id : ℤ) (status : Field)
    → IsConsistent revision_id (project_status revision_id status)
unfolding project_status unsupported_or_invalid canonical_of outcome_value
project_status-IsConsistent revision_id Field.other =
    without_status-IsConsistent revision_id none ProjectionOutcome.invalid_source_record _ refl refl
project_status-IsConsistent revision_id (Field.text status) =
    elim (Option-cases (status_map status)) [
      | inl e ↦ rw (project_status, e) (unsupported_or_invalid-IsConsistent revision_id status e)
      | inr (canonical, e) ↦
          rw (project_status, e)
            (record {
              same_id = refl;
              canonical = sym (ap (Option.map review_value) e);
              with_status = refl;
              with_group = refl;
              with_reason = refl;
            })
    ]

-- Whatever the source does, a projection of an id comes back, with that id, and consistent.
pub project_joint_revision-IsConsistent :
    (service : JointService) (revision_id : ℤ)
    → IsConsistent revision_id (project_joint_revision service revision_id)
unfolding project_joint_revision outcome_value canonical_of
project_joint_revision-IsConsistent service revision_id = elim (Bool-cases service.importable) [
  | inl e ↦ rw (project_joint_revision, e) (read (service.get_joint_revision revision_id))
  | inr e ↦
      rw (project_joint_revision, e)
        (without_status-IsConsistent revision_id none ProjectionOutcome.source_unavailable _ refl
          refl)
]
  where
    read :
        (r : Result ReadError (Option Row)) → IsConsistent revision_id (project_read revision_id r)
    read (err (ReadError.not_found i)) =
        without_status-IsConsistent revision_id none ProjectionOutcome.not_found _ refl refl
    read (err ReadError.read_failure) =
        without_status-IsConsistent revision_id none ProjectionOutcome.source_unavailable _ refl
          refl
    read (ok none) =
        without_status-IsConsistent revision_id none ProjectionOutcome.invalid_source_record _ refl
          refl
    read (ok (some row)) = project_status-IsConsistent revision_id row.status
