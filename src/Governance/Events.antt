-- ===== src/Governance/Events.antt =====
-- The governance event (backend/governance/events.py), and the event list as the store's read
-- methods see it (backend/governance/store.py).
use torq_pro.Prelude.{
  String, Option, List, if◌then◌else◌, HasEq, ◌==◌, string_eq, ℤ, ok, err, filter, find,
}
use torq_pro.Governance.Enums.{LifecycleGroup}
use torq_pro.Governance.Errors.{Outcome, validation_error}
use torq_pro.Governance.Timestamps.{is_valid_utc_iso8601}

-- What the package uses of `metadata: Dict[str, Any]`, which it does not interpret: Python's `==`
-- of two dicts, and `{}`. A value of `M` is a dict up to `==`.
pub record Metadata (M : Type 0) : Type 0 where
  pub same : HasEq M
  pub empty : M

pub record Event (M : Type 0) : Type 0 where
  pub event_id : String
  pub aggregate_id : String
  pub aggregate_type : String
  pub lifecycle_group : LifecycleGroup
  pub previous_status : String
  pub new_status : String
  pub decision_id : String
  pub idempotency_key : String
  pub actor : Option String
  pub occurred_at : String
  pub review_comment : Option String
  pub change_reason : Option String
  pub revision_no : Option ℤ
  pub supersedes_id : Option String
  pub superseded_by_id : Option String
  pub metadata : M

module _ {M : Type 0} where
  -- `GovernanceEvent(...)` with its field validator
  unfoldable pub governance_event : Event M → Outcome (Event M)
  governance_event e =
      if is_valid_utc_iso8601 e.occurred_at then ok e else err (validation_error e.occurred_at)

  -- the comprehension of `events_for_aggregate`
  unfoldable pub for_aggregate : String → List (Event M) → List (Event M)
  unfolding filter
  for_aggregate aggregate_id events = filter (λ e. e.aggregate_id == aggregate_id) events

  -- the loop of `find_by_decision_id`
  unfoldable pub with_decision : String → List (Event M) → Option (Event M)
  unfolding find
  with_decision decision_id events = find (λ e. e.decision_id == decision_id) events

  -- the loop of `find_by_idempotency_key`
  unfoldable pub with_key : String → List (Event M) → Option (Event M)
  unfolding find
  with_key idempotency_key events = find (λ e. e.idempotency_key == idempotency_key) events
