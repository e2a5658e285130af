-- ===== src/Governance/Decisions/Models.antt =====
-- The decision models, their field validators and `model_dump` (backend/governance/models.py).
use torq_pro.Prelude.{String, Option, none, some, List, [], ◌∷◌, ℤ, ok, ◌>>◌}
use torq_pro.Governance.Enums.{
  ReviewStatus, PublicationStatus, ResolutionStatus, review_value, publication_value,
  resolution_value,
}
use torq_pro.Governance.Errors.{Outcome}
use torq_pro.Governance.Timestamps.{validate_optional_timestamp}

pub record ReviewDecision : Type 0 where
  pub decision_id : String
  pub idempotency_key : String
  pub previous_status : ReviewStatus
  pub new_status : ReviewStatus
  pub submitted_by : Option String
  pub submitted_at : Option String
  pub approved_by : Option String
  pub approved_at : Option String
  pub rejected_by : Option String
  pub rejected_at : Option String
  pub review_comment : Option String
  pub change_reason : Option String
  pub created_at : String

pub record PublicationDecision : Type 0 where
  pub decision_id : String
  pub idempotency_key : String
  pub previous_status : PublicationStatus
  pub new_status : PublicationStatus
  pub submitted_by : Option String
  pub revision_no : Option ℤ
  pub supersedes_id : Option String
  pub superseded_by_id : Option String
  pub change_reason : Option String
  pub created_at : String

pub record ResolutionDecision : Type 0 where
  pub decision_id : String
  pub idempotency_key : String
  pub previous_status : ResolutionStatus
  pub new_status : ResolutionStatus
  pub reviewed_by : Option String
  pub reviewed_at : Option String
  pub rejected_by : Option String
  pub rejected_at : Option String
  pub review_comment : Option String
  pub created_at : String

-- A model's constructor runs its field validators, in the order of the fields.
unfoldable pub review_decision : ReviewDecision → Outcome ReviewDecision
unfolding validate_optional_timestamp
review_decision d = do
  validate_optional_timestamp d.submitted_at
  validate_optional_timestamp d.approved_at
  validate_optional_timestamp d.rejected_at
  validate_optional_timestamp (some d.created_at)
  ok d

unfoldable pub publication_decision : PublicationDecision → Outcome PublicationDecision
unfolding validate_optional_timestamp
publication_decision d = do validate_optional_timestamp (some d.created_at); ok d

unfoldable pub resolution_decision : ResolutionDecision → Outcome ResolutionDecision
unfolding validate_optional_timestamp
resolution_decision d = do
  validate_optional_timestamp d.reviewed_at
  validate_optional_timestamp d.rejected_at
  validate_optional_timestamp (some d.created_at)
  ok d

-- A field's value in `model_dump()`; the `str` enums are texts.
pub data Value : Type 0 where
  absent : Value
  text : String → Value
  number : ℤ → Value

abbrev pub optional_text : Option String → Value
optional_text none = absent
optional_text (some s) = text s

abbrev pub optional_number : Option ℤ → Value
optional_number none = absent
optional_number (some n) = number n

abbrev pub Dump : Type 0
Dump = List (String × Value)

unfoldable pub review_dump : ReviewDecision → Dump
unfolding review_value
review_dump d =
    ("decision_id", text d.decision_id)
    ∷ ("idempotency_key", text d.idempotency_key)
    ∷ ("previous_status", text (review_value d.previous_status))
    ∷ ("new_status", text (review_value d.new_status))
    ∷ ("submitted_by", optional_text d.submitted_by)
    ∷ ("submitted_at", optional_text d.submitted_at)
    ∷ ("approved_by", optional_text d.approved_by)
    ∷ ("approved_at", optional_text d.approved_at)
    ∷ ("rejected_by", optional_text d.rejected_by)
    ∷ ("rejected_at", optional_text d.rejected_at)
    ∷ ("review_comment", optional_text d.review_comment)
    ∷ ("change_reason", optional_text d.change_reason)
    ∷ ("created_at", text d.created_at)
    ∷ []

unfoldable pub publication_dump : PublicationDecision → Dump
unfolding publication_value
publication_dump d =
    ("decision_id", text d.decision_id)
    ∷ ("idempotency_key", text d.idempotency_key)
    ∷ ("previous_status", text (publication_value d.previous_status))
    ∷ ("new_status", text (publication_value d.new_status))
    ∷ ("submitted_by", optional_text d.submitted_by)
    ∷ ("revision_no", optional_number d.revision_no)
    ∷ ("supersedes_id", optional_text d.supersedes_id)
    ∷ ("superseded_by_id", optional_text d.superseded_by_id)
    ∷ ("change_reason", optional_text d.change_reason)
    ∷ ("created_at", text d.created_at)
    ∷ []

unfoldable pub resolution_dump : ResolutionDecision → Dump
unfolding resolution_value
resolution_dump d =
    ("decision_id", text d.decision_id)
    ∷ ("idempotency_key", text d.idempotency_key)
    ∷ ("previous_status", text (resolution_value d.previous_status))
    ∷ ("new_status", text (resolution_value d.new_status))
    ∷ ("reviewed_by", optional_text d.reviewed_by)
    ∷ ("reviewed_at", optional_text d.reviewed_at)
    ∷ ("rejected_by", optional_text d.rejected_by)
    ∷ ("rejected_at", optional_text d.rejected_at)
    ∷ ("review_comment", optional_text d.review_comment)
    ∷ ("created_at", text d.created_at)
    ∷ []
