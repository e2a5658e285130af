-- ===== src/Governance/Commands/Review.antt =====
-- The review commands (backend/governance/service.py).
use torq_pro.Prelude.{String, Bool, Option, none, some, ok, err, ◌>>=◌}
use torq_pro.Governance.Enums.{ReviewStatus, LifecycleGroup, review_of, review_value}
use torq_pro.Governance.Errors.{Outcome, value_error}
use torq_pro.Governance.Decisions.{ReviewDecision, review_decision, validate_review_decision}
use torq_pro.Governance.Events.{Metadata, Event}
use torq_pro.Governance.Contract.{EventStore}
use torq_pro.Governance.Requests.{Transition}
use torq_pro.Governance.Service.{execute_transition}
use torq_pro.Governance.Commands.Args.{Arguments}

-- `ReviewStatus(previous)`
unfoldable pub parse_review : String → Outcome ReviewStatus
unfolding review_of
parse_review previous = elim (review_of previous) [
  | none ↦ err (value_error previous)
  | some status ↦ ok status
]

-- `validate_review_decision(ReviewDecision(previous_status=ReviewStatus(previous), ...))`
unfoldable pub check_review : (ReviewStatus → ReviewDecision) → String → Outcome (Unit {0})
unfolding parse_review review_decision validate_review_decision
check_review build previous = do
  previous_status ← parse_review previous
  decision ← review_decision (build previous_status)
  validate_review_decision decision

module _ {M : Type 0} (a : Arguments M) where
  -- the decision of `submit_review`
  unfoldable pub submit_review_decision : String → Option String → ReviewStatus → ReviewDecision
  submit_review_decision actor change_reason previous_status = record {
    decision_id = a.decision_id;
    idempotency_key = a.idempotency_key;
    previous_status = previous_status;
    new_status = ReviewStatus.under_review;
    submitted_by = some actor;
    submitted_at = some a.occurred_at;
    approved_by = none;
    approved_at = none;
    rejected_by = none;
    rejected_at = none;
    review_comment = none;
    change_reason = change_reason;
    created_at = a.occurred_at;
  }

  -- what `submit_review` passes to the engine
  unfoldable pub submit_review_transition : String → Option String → Transition M
  unfolding review_value
  submit_review_transition actor change_reason = record {
    aggregate_id = a.aggregate_id;
    aggregate_type = a.aggregate_type;
    lifecycle_group = LifecycleGroup.review;
    decision_id = a.decision_id;
    idempotency_key = a.idempotency_key;
    new_status = review_value ReviewStatus.under_review;
    occurred_at = a.occurred_at;
    actor = some actor;
    review_comment = none;
    change_reason = change_reason;
    revision_no = none;
    supersedes_id = none;
    superseded_by_id = none;
    metadata = a.metadata;
    event_id = a.event_id;
  }

  -- the decision of `approve_review`
  unfoldable pub approve_review_decision : String → Option String → ReviewStatus → ReviewDecision
  approve_review_decision actor review_comment previous_status = record {
    decision_id = a.decision_id;
    idempotency_key = a.idempotency_key;
    previous_status = previous_status;
    new_status = ReviewStatus.approved;
    submitted_by = none;
    submitted_at = none;
    approved_by = some actor;
    approved_at = some a.occurred_at;
    rejected_by = none;
    rejected_at = none;
    review_comment = review_comment;
    change_reason = none;
    created_at = a.occurred_at;
  }

  -- what `approve_review` passes to the engine
  unfoldable pub approve_review_transition : String → Option String → Transition M
  unfolding review_value
  approve_review_transition actor review_comment = record {
    aggregate_id = a.aggregate_id;
    aggregate_type = a.aggregate_type;
    lifecycle_group = LifecycleGroup.review;
    decision_id = a.decision_id;
    idempotency_key = a.idempotency_key;
    new_status = review_value ReviewStatus.approved;
    occurred_at = a.occurred_at;
    actor = some actor;
    review_comment = review_comment;
    change_reason = none;
    revision_no = none;
    supersedes_id = none;
    superseded_by_id = none;
    metadata = a.metadata;
    event_id = a.event_id;
  }

  -- the decision of `reject_review`
  unfoldable pub reject_review_decision : String → Option String → ReviewStatus → ReviewDecision
  reject_review_decision actor review_comment previous_status = record {
    decision_id = a.decision_id;
    idempotency_key = a.idempotency_key;
    previous_status = previous_status;
    new_status = ReviewStatus.rejected;
    submitted_by = none;
    submitted_at = none;
    approved_by = none;
    approved_at = none;
    rejected_by = some actor;
    rejected_at = some a.occurred_at;
    review_comment = review_comment;
    change_reason = none;
    created_at = a.occurred_at;
  }

  -- what `reject_review` passes to the engine
  unfoldable pub reject_review_transition : String → Option String → Transition M
  unfolding review_value
  reject_review_transition actor review_comment = record {
    aggregate_id = a.aggregate_id;
    aggregate_type = a.aggregate_type;
    lifecycle_group = LifecycleGroup.review;
    decision_id = a.decision_id;
    idempotency_key = a.idempotency_key;
    new_status = review_value ReviewStatus.rejected;
    occurred_at = a.occurred_at;
    actor = some actor;
    review_comment = review_comment;
    change_reason = none;
    revision_no = none;
    supersedes_id = none;
    superseded_by_id = none;
    metadata = a.metadata;
    event_id = a.event_id;
  }

module _ {M : Type 0} ⦃meta : Metadata M⦄ (store : EventStore M) where
  open store use {State}

  -- `draft -> under_review`
  unfoldable pub submit_review :
      Arguments M → String → Option String → String → State → Outcome (Event M × Bool) × State
  unfolding execute_transition submit_review_transition check_review submit_review_decision
  submit_review a actor change_reason =
      execute_transition store (submit_review_transition a actor change_reason)
        (check_review (submit_review_decision a actor change_reason))

  -- `under_review -> approved`
  unfoldable pub approve_review :
      Arguments M → String → Option String → String → State → Outcome (Event M × Bool) × State
  unfolding execute_transition approve_review_transition check_review approve_review_decision
  approve_review a actor review_comment =
      execute_transition store (approve_review_transition a actor review_comment)
        (check_review (approve_review_decision a actor review_comment))

  -- `under_review -> rejected`
  unfoldable pub reject_review :
      Arguments M → String → Option String → String → State → Outcome (Event M × Bool) × State
  unfolding execute_transition reject_review_transition check_review reject_review_decision
  reject_review a actor review_comment =
      execute_transition store (reject_review_transition a actor review_comment)
        (check_review (reject_review_decision a actor review_comment))
