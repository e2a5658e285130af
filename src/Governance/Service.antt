-- ===== src/Governance/Service.antt =====
-- Event histories, effective status, idempotency and the shared transition engine
-- (backend/governance/service.py), over any store that keeps the contract.
pub mod Permits
pub mod Log
pub mod Outcomes
pub mod Plan
use torq_pro.Prelude.{
  String, Bool, true, false, Option, none, some, List, [], ◌∷◌, if◌then◌else◌, ◌==◌, string_eq,
  option_eq, ok, err, ◌>>=◌, ◌>>◌, filter, get_last?,
}
use torq_pro.Governance.Enums.{
  ReviewStatus, PublicationStatus, ResolutionStatus, LifecycleGroup, review_value,
  publication_value, resolution_value, group_value, group_eq,
}
use torq_pro.Governance.Errors.{
  Outcome, idempotency_conflict, duplicate_decision, aggregate_not_found,
}
use torq_pro.Governance.Events.{Metadata, Event, governance_event}
use torq_pro.Governance.Contract.{EventStore}
use torq_pro.Governance.Requests.{
  Transition, Request, or_empty, normalize_request, event_matches_request,
}

-- `_INITIAL_STATUS`
unfoldable pub initial_status : LifecycleGroup → String
unfolding review_value publication_value resolution_value
initial_status LifecycleGroup.review = review_value ReviewStatus.draft
initial_status LifecycleGroup.publication = publication_value PublicationStatus.draft
initial_status LifecycleGroup.resolution = resolution_value ResolutionStatus.open_issue

-- `event_id or _default_event_id_factory()`; `fresh` is what `uuid4().hex` gives
unfoldable pub event_id_or : Option String → String → String
event_id_or none fresh = fresh
event_id_or (some id) fresh = if id == "" then fresh else id

-- `lifecycle_group.value if lifecycle_group else "any"`
abbrev pub group_text : Option LifecycleGroup → String
group_text none = "any"
group_text (some group) = group_value group

module _ {M : Type 0} where
  -- the comprehension of `event_history`
  unfoldable pub in_group : Option LifecycleGroup → List (Event M) → List (Event M)
  unfolding filter
  in_group none events = events
  in_group (some group) events = filter (λ e. e.lifecycle_group == group) events

  -- the body of `latest_event`, on the history
  unfoldable pub latest :
      String → Option LifecycleGroup → Bool → List (Event M) → Outcome (Option (Event M))
  unfolding get_last?
  latest aggregate_id group strict [] =
      if strict then err (aggregate_not_found aggregate_id (group_text group)) else ok none
  latest aggregate_id group strict (e ∷ es) = ok (get_last? (e ∷ es))

  -- the body of `effective_status`, on the latest event
  unfoldable pub status_after : LifecycleGroup → Option (Event M) → String
  unfolding initial_status
  status_after group none = initial_status group
  status_after group (some e) = e.new_status

  -- The event that step 3 of `_execute_transition` builds.
  unfoldable pub new_event : ⦃meta : Metadata M⦄ → Transition M → String → String → Event M
  unfolding event_id_or
  new_event t previous_status fresh = record {
    event_id = event_id_or t.event_id fresh;
    aggregate_id = t.aggregate_id;
    aggregate_type = t.aggregate_type;
    lifecycle_group = t.lifecycle_group;
    previous_status = previous_status;
    new_status = t.new_status;
    decision_id = t.decision_id;
    idempotency_key = t.idempotency_key;
    actor = t.actor;
    occurred_at = t.occurred_at;
    review_comment = t.review_comment;
    change_reason = t.change_reason;
    revision_no = t.revision_no;
    supersedes_id = t.supersedes_id;
    superseded_by_id = t.superseded_by_id;
    metadata = or_empty t.metadata;
  }

module _ {M : Type 0} ⦃meta : Metadata M⦄ (store : EventStore M) where
  open store use {State, append, events_for_aggregate, find_by_decision_id, find_by_idempotency_key}

  unfoldable pub event_history : String → Option LifecycleGroup → State → Outcome (List (Event M))
  unfolding in_group
  event_history aggregate_id group s = do
    events ← events_for_aggregate aggregate_id s
    ok (in_group group events)

  unfoldable pub latest_event :
      String → Option LifecycleGroup → Bool → State → Outcome (Option (Event M))
  unfolding event_history latest
  latest_event aggregate_id group strict s = do
    events ← event_history aggregate_id group s
    latest aggregate_id group strict events

  unfoldable pub effective_status : String → LifecycleGroup → State → Outcome String
  unfolding latest_event status_after
  effective_status aggregate_id group s = do
    event ← latest_event aggregate_id (some group) false s
    ok (status_after group event)

  -- what `_resolve_idempotency` does with the event that has the key
  unfoldable pub retry_or_conflict : String → Request M → Event M → Outcome (Option (Event M))
  unfolding event_matches_request
  retry_or_conflict idempotency_key normalized e =
      if event_matches_request e normalized
      then ok (some e)
      else err (idempotency_conflict idempotency_key)

  unfoldable pub refuse_duplicate : String → Option (Event M) → Outcome (Option (Event M))
  refuse_duplicate decision_id none = ok none
  refuse_duplicate decision_id (some e) = err (duplicate_decision decision_id)

  unfoldable pub resolve_idempotency :
      String → String → Request M → State → Outcome (Option (Event M))
  unfolding retry_or_conflict refuse_duplicate
  resolve_idempotency idempotency_key decision_id normalized s = do
    existing_by_key ← find_by_idempotency_key idempotency_key s
    elim existing_by_key [
      | some e ↦ retry_or_conflict idempotency_key normalized e
      | none ↦ find_by_decision_id decision_id s >>= refuse_duplicate decision_id
    ]

  -- Everything of `_execute_transition` before the append: it only reads the store. The event comes
  -- with `true` if it is new and still to be appended.
  unfoldable pub decide :
      Transition M → (String → Outcome (Unit {0})) → String → State → Outcome (Event M × Bool)
  unfolding normalize_request resolve_idempotency effective_status governance_event new_event
  decide t validate_against_previous fresh s = do
    existing ← resolve_idempotency t.idempotency_key t.decision_id (normalize_request t) s
    elim existing [
      | some e ↦ ok (e, false)
      | none ↦ effective_status t.aggregate_id t.lifecycle_group s >>= λ previous_status.
          validate_against_previous previous_status
          >> governance_event (new_event t previous_status fresh)
          >>= λ event. ok (event, true)
    ]

  unfoldable pub persist : Event M → Outcome (Event M) × State → Outcome (Event M × Bool) × State
  persist event (done, s) = ((done >>= λ _. ok (event, true)), s)

  -- `store.append(event); return event, True`, or the early return, or the exception
  unfoldable pub finish : Outcome (Event M × Bool) → State → Outcome (Event M × Bool) × State
  unfolding persist
  finish (err x) s = (err x, s)
  finish (ok (e, false)) s = (ok (e, false), s)
  finish (ok (e, true)) s = persist e (append e s)

  unfoldable pub execute_transition :
      Transition M
      → (String → Outcome (Unit {0}))
      → String
      → State
      → Outcome (Event M × Bool) × State
  unfolding decide finish
  execute_transition t validate_against_previous fresh s =
      finish (decide t validate_against_previous fresh s) s
