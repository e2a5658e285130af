-- ===== src/Governance/Commands/Resolution.antt =====
-- The resolution commands (backend/governance/service.py).
use torq_pro.Prelude.{String, Bool, Option, none, some, ok, err, ◌>>=◌}
use torq_pro.Governance.Enums.{ResolutionStatus, LifecycleGroup, resolution_of, resolution_value}
use torq_pro.Governance.Errors.{Outcome, value_error}
use torq_pro.Governance.Decisions.{
  ResolutionDecision, resolution_decision, validate_resolution_decision,
}
use torq_pro.Governance.Events.{Metadata, Event}
use torq_pro.Governance.Contract.{EventStore}
use torq_pro.Governance.Requests.{Transition}
use torq_pro.Governance.Service.{execute_transition}
use torq_pro.Governance.Commands.Args.{Arguments}

-- `ResolutionStatus(previous)`
unfoldable pub parse_resolution : String → Outcome ResolutionStatus
unfolding resolution_of
parse_resolution previous = elim (resolution_of previous) [
  | none ↦ err (value_error previous)
  | some status ↦ ok status
]

-- `validate_resolution_decision(ResolutionDecision(previous_status=ResolutionStatus(previous), ...))`
unfoldable pub check_resolution :
    (ResolutionStatus → ResolutionDecision) → String → Outcome (Unit {0})
unfolding parse_resolution resolution_decision validate_resolution_decision
check_resolution build previous = do
  previous_status ← parse_resolution previous
  decision ← resolution_decision (build previous_status)
  validate_resolution_decision decision

module _ {M : Type 0} (a : Arguments M) (actor : String) (new_status : ResolutionStatus) where
  -- the decision of `_resolution_command`
  unfoldable pub resolution_command_decision : Option String → ResolutionStatus → ResolutionDecision
  resolution_command_decision review_comment previous_status = record {
    decision_id = a.decision_id;
    idempotency_key = a.idempotency_key;
    previous_status = previous_status;
    new_status = new_status;
    reviewed_by = some actor;
    reviewed_at = some a.occurred_at;
    rejected_by = none;
    rejected_at = none;
    review_comment = review_comment;
    created_at = a.occurred_at;
  }

  -- what `_resolution_command` passes to the engine
  unfoldable pub resolution_command_transition : Option String → Transition M
  unfolding resolution_value
  resolution_command_transition review_comment = record {
    aggregate_id = a.aggregate_id;
    aggregate_type = a.aggregate_type;
    lifecycle_group = LifecycleGroup.resolution;
    decision_id = a.decision_id;
    idempotency_key = a.idempotency_key;
    new_status = resolution_value new_status;
    occurred_at = a.occurred_at;
    actor = some actor;
    review_comment = review_comment;
    change_reason = none;
    revision_no = none;
    supersedes_id = none;
    superseded_by_id = none;
    metadata = a.metadata;
    event_id = a.event_id;
  }

module _ {M : Type 0} ⦃meta : Metadata M⦄ (store : EventStore M) where
  open store use {State}

  -- `_resolution_command`
  unfoldable pub resolution_command :
      Arguments M
      → String
      → ResolutionStatus
      → Option String
      → String
      → State
      → Outcome (Event M × Bool) × State
  unfolding execute_transition resolution_command_transition check_resolution
      resolution_command_decision
  resolution_command a actor new_status review_comment =
      execute_transition store (resolution_command_transition a actor new_status review_comment)
        (check_resolution (resolution_command_decision a actor new_status review_comment))

  -- `open -> resolved`
  unfoldable pub resolve_resolution :
      Arguments M → String → Option String → String → State → Outcome (Event M × Bool) × State
  unfolding resolution_command
  resolve_resolution a actor review_comment =
      resolution_command a actor ResolutionStatus.resolved review_comment

  -- `open -> rejected`
  unfoldable pub reject_resolution :
      Arguments M → String → Option String → String → State → Outcome (Event M × Bool) × State
  unfolding resolution_command
  reject_resolution a actor review_comment =
      resolution_command a actor ResolutionStatus.rejected review_comment

  -- `open -> waived`
  unfoldable pub waive_resolution :
      Arguments M → String → Option String → String → State → Outcome (Event M × Bool) × State
  unfolding resolution_command
  waive_resolution a actor review_comment =
      resolution_command a actor ResolutionStatus.waived review_comment
