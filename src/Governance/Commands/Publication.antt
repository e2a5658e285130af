-- ===== src/Governance/Commands/Publication.antt =====
-- The publication commands (backend/governance/service.py).
use torq_pro.Prelude.{String, Bool, Option, none, some, ℤ, ok, err, ◌>>=◌}
use torq_pro.Governance.Enums.{PublicationStatus, LifecycleGroup, publication_of, publication_value}
use torq_pro.Governance.Errors.{Outcome, value_error}
use torq_pro.Governance.Decisions.{
  PublicationDecision, publication_decision, validate_publication_decision,
}
use torq_pro.Governance.Events.{Metadata, Event}
use torq_pro.Governance.Contract.{EventStore}
use torq_pro.Governance.Requests.{Transition}
use torq_pro.Governance.Service.{execute_transition}
use torq_pro.Governance.Commands.Args.{Arguments}

-- `PublicationStatus(previous)`
unfoldable pub parse_publication : String → Outcome PublicationStatus
unfolding publication_of
parse_publication previous = elim (publication_of previous) [
  | none ↦ err (value_error previous)
  | some status ↦ ok status
]

-- `validate_publication_decision(PublicationDecision(previous_status=PublicationStatus(previous), ...))`
unfoldable pub check_publication :
    (PublicationStatus → PublicationDecision) → String → Outcome (Unit {0})
unfolding parse_publication publication_decision validate_publication_decision
check_publication build previous = do
  previous_status ← parse_publication previous
  decision ← publication_decision (build previous_status)
  validate_publication_decision decision

module _ {M : Type 0} (a : Arguments M) where
  -- the decision of `activate_publication`
  unfoldable pub activate_publication_decision :
      String → Option ℤ → Option String → Option String → PublicationStatus → PublicationDecision
  activate_publication_decision actor revision_no supersedes_id change_reason previous_status =
      record {
        decision_id = a.decision_id;
        idempotency_key = a.idempotency_key;
        previous_status = previous_status;
        new_status = PublicationStatus.active;
        submitted_by = some actor;
        revision_no = revision_no;
        supersedes_id = supersedes_id;
        superseded_by_id = none;
        change_reason = change_reason;
        created_at = a.occurred_at;
      }

  -- what `activate_publication` passes to the engine
  unfoldable pub activate_publication_transition :
      String → Option ℤ → Option String → Option String → Transition M
  unfolding publication_value
  activate_publication_transition actor revision_no supersedes_id change_reason = record {
    aggregate_id = a.aggregate_id;
    aggregate_type = a.aggregate_type;
    lifecycle_group = LifecycleGroup.publication;
    decision_id = a.decision_id;
    idempotency_key = a.idempotency_key;
    new_status = publication_value PublicationStatus.active;
    occurred_at = a.occurred_at;
    actor = some actor;
    review_comment = none;
    change_reason = change_reason;
    revision_no = revision_no;
    supersedes_id = supersedes_id;
    superseded_by_id = none;
    metadata = a.metadata;
    event_id = a.event_id;
  }

  -- the decision of `supersede_publication`
  unfoldable pub supersede_publication_decision :
      String → Option String → PublicationStatus → PublicationDecision
  supersede_publication_decision superseded_by_id change_reason previous_status = record {
    decision_id = a.decision_id;
    idempotency_key = a.idempotency_key;
    previous_status = previous_status;
    new_status = PublicationStatus.superseded;
    submitted_by = none;
    revision_no = none;
    supersedes_id = none;
    superseded_by_id = some superseded_by_id;
    change_reason = change_reason;
    created_at = a.occurred_at;
  }

  -- what `supersede_publication` passes to the engine
  unfoldable pub supersede_publication_transition :
      String → Option String → Option String → Transition M
  unfolding publication_value
  supersede_publication_transition superseded_by_id actor change_reason = record {
    aggregate_id = a.aggregate_id;
    aggregate_type = a.aggregate_type;
    lifecycle_group = LifecycleGroup.publication;
    decision_id = a.decision_id;
    idempotency_key = a.idempotency_key;
    new_status = publication_value PublicationStatus.superseded;
    occurred_at = a.occurred_at;
    actor = actor;
    review_comment = none;
    change_reason = change_reason;
    revision_no = none;
    supersedes_id = none;
    superseded_by_id = some superseded_by_id;
    metadata = a.metadata;
    event_id = a.event_id;
  }

  -- the decision of `archive_publication`
  unfoldable pub archive_publication_decision :
      String → Option String → PublicationStatus → PublicationDecision
  archive_publication_decision actor change_reason previous_status = record {
    decision_id = a.decision_id;
    idempotency_key = a.idempotency_key;
    previous_status = previous_status;
    new_status = PublicationStatus.archived;
    submitted_by = some actor;
    revision_no = none;
    supersedes_id = none;
    superseded_by_id = none;
    change_reason = change_reason;
    created_at = a.occurred_at;
  }

  -- what `archive_publication` passes to the engine
  unfoldable pub archive_publication_transition : String → Option String → Transition M
  unfolding publication_value
  archive_publication_transition actor change_reason = record {
    aggregate_id = a.aggregate_id;
    aggregate_type = a.aggregate_type;
    lifecycle_group = LifecycleGroup.publication;
    decision_id = a.decision_id;
    idempotency_key = a.idempotency_key;
    new_status = publication_value PublicationStatus.archived;
    occurred_at = a.occurred_at;
    actor = some actor;
    review_comment = none;
    change_reason = change_reason;
    revision_no = none;
    supersedes_id = none;
    superseded_by_id = none;
    metadata = a.metadata;
    event_id = a.event_id;
  }

module _ {M : Type 0} ⦃meta : Metadata M⦄ (store : EventStore M) where
  open store use {State}

  -- `draft -> active`
  unfoldable pub activate_publication :
      Arguments M
      → String
      → Option ℤ
      → Option String
      → Option String
      → String
      → State
      → Outcome (Event M × Bool) × State
  unfolding execute_transition activate_publication_transition check_publication
      activate_publication_decision
  activate_publication a actor revision_no supersedes_id change_reason =
      execute_transition store
        (activate_publication_transition a actor revision_no supersedes_id change_reason)
        (check_publication
          (activate_publication_decision a actor revision_no supersedes_id change_reason))

  -- `active -> superseded`
  unfoldable pub supersede_publication :
      Arguments M
      → String
      → Option String
      → Option String
      → String
      → State
      → Outcome (Event M × Bool) × State
  unfolding execute_transition supersede_publication_transition check_publication
      supersede_publication_decision
  supersede_publication a superseded_by_id actor change_reason =
      execute_transition store
        (supersede_publication_transition a superseded_by_id actor change_reason)
        (check_publication (supersede_publication_decision a superseded_by_id change_reason))

  -- `active -> archived`
  unfoldable pub archive_publication :
      Arguments M → String → Option String → String → State → Outcome (Event M × Bool) × State
  unfolding execute_transition archive_publication_transition check_publication
      archive_publication_decision
  archive_publication a actor change_reason =
      execute_transition store (archive_publication_transition a actor change_reason)
        (check_publication (archive_publication_decision a actor change_reason))
