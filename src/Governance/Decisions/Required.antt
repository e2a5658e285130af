-- ===== src/Governance/Decisions/Required.antt =====
-- The required-field tables and the validation of decisions (backend/governance/models.py).
use torq_pro.Prelude.{
  String, Bool, true, false, not, ◌&&◌, Option, none, some, List, [], ◌∷◌, if◌then◌else◌, HasEq,
  ◌==◌, string_eq, ok, err, ◌>>◌, filter, blank,
}
use torq_pro.Governance.Enums.{
  ReviewStatus, PublicationStatus, ResolutionStatus, review_value, publication_value,
  resolution_value, review_eq, publication_eq, resolution_eq, review_transitions,
  publication_transitions, resolution_transitions,
}
use torq_pro.Governance.Errors.{Outcome, missing_required_field}
use torq_pro.Governance.Transitions.{validate_transition}
use torq_pro.Governance.Decisions.Models.{
  ReviewDecision, PublicationDecision, ResolutionDecision, Value, absent, text, number, Dump,
  review_dump, publication_dump, resolution_dump,
}

-- `_is_present(provided.get(field))`
unfoldable pub is_present : Option Value → Bool
is_present none = false
is_present (some absent) = false
is_present (some (text s)) = not (blank s)
is_present (some (number n)) = true

unfoldable pub get : String → Dump → Option Value
get field [] = none
get field ((name, v) ∷ rest) = if name == field then some v else get field rest

unfoldable pub missing_fields : List String → Dump → List String
unfolding is_present get filter
missing_fields required provided = filter (λ field. not (is_present (get field provided))) required

unfoldable pub validate_required_fields : List String → Dump → String → Outcome (Unit {0})
unfolding missing_fields
validate_required_fields required provided lifecycle_name =
    elim (missing_fields required provided) [
      | [] ↦ ok tt
      | f ∷ fs ↦ err (missing_required_field lifecycle_name (f ∷ fs))
    ]

-- `TABLE.get((previous_status, new_status), frozenset())`
module _ {S : Type 0} ⦃e : HasEq S⦄ where
  unfoldable pub required_for : List ((S × S) × List String) → S → S → List String
  required_for [] previous new = []
  required_for ((key, fields) ∷ rest) previous new =
      if (key.0 == previous) && (key.1 == new) then fields else required_for rest previous new

unfoldable pub review_required_fields : List ((ReviewStatus × ReviewStatus) × List String)
review_required_fields =
    ((ReviewStatus.draft, ReviewStatus.under_review), "submitted_by" ∷ "submitted_at" ∷ [])
    ∷ ((ReviewStatus.under_review, ReviewStatus.approved), "approved_by" ∷ "approved_at" ∷ [])
    ∷ ((ReviewStatus.under_review, ReviewStatus.rejected), "rejected_by" ∷ "rejected_at" ∷ [])
    ∷ []

unfoldable pub publication_required_fields :
    List ((PublicationStatus × PublicationStatus) × List String)
publication_required_fields =
    ((PublicationStatus.draft, PublicationStatus.active), "submitted_by" ∷ "created_at" ∷ [])
    ∷ (
      (PublicationStatus.active, PublicationStatus.superseded),
      "superseded_by_id" ∷ "created_at" ∷ [],
    )
    ∷ ((PublicationStatus.active, PublicationStatus.archived), "submitted_by" ∷ "created_at" ∷ [])
    ∷ []

unfoldable pub resolution_required_fields :
    List ((ResolutionStatus × ResolutionStatus) × List String)
resolution_required_fields =
    ((ResolutionStatus.open_issue, ResolutionStatus.resolved), "reviewed_by" ∷ "reviewed_at" ∷ [])
    ∷ ((ResolutionStatus.open_issue, ResolutionStatus.rejected), "reviewed_by" ∷ "reviewed_at" ∷ [])
    ∷ ((ResolutionStatus.open_issue, ResolutionStatus.waived), "reviewed_by" ∷ "reviewed_at" ∷ [])
    ∷ []

unfoldable pub validate_review_decision : ReviewDecision → Outcome (Unit {0})
unfolding validate_transition review_transitions required_for review_required_fields
    validate_required_fields review_dump
validate_review_decision d = do
  validate_transition review_value review_transitions d.previous_status d.new_status "review"
  let required = required_for review_required_fields d.previous_status d.new_status
  validate_required_fields required (review_dump d) "review"

unfoldable pub validate_publication_decision : PublicationDecision → Outcome (Unit {0})
unfolding validate_transition publication_transitions required_for publication_required_fields
    validate_required_fields publication_dump
validate_publication_decision d = do
  validate_transition publication_value publication_transitions d.previous_status d.new_status
      "publication"
  let required = required_for publication_required_fields d.previous_status d.new_status
  validate_required_fields required (publication_dump d) "publication"

unfoldable pub validate_resolution_decision : ResolutionDecision → Outcome (Unit {0})
unfolding validate_transition resolution_transitions required_for resolution_required_fields
    validate_required_fields resolution_dump
validate_resolution_decision d = do
  validate_transition resolution_value resolution_transitions d.previous_status d.new_status
      "resolution"
  let required = required_for resolution_required_fields d.previous_status d.new_status
  validate_required_fields required (resolution_dump d) "resolution"
