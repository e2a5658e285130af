-- ===== src/Governance/Contract.antt =====
-- What the service relies on of an event store: the abstract class `GovernanceEventStore`
-- (backend/governance/store.py) and the contract of its docstrings. The service takes a store as a
-- parameter, and `File` fills the record.
use torq_pro.Prelude.{
  String, ◌≡◌, true, Option, none, List, [], ◌∷◌, ◌++◌, if◌then◌else◌, ◌==◌, string_eq, ok, err,
  ◌>>=◌, ◌||◌,
}
use torq_pro.Governance.Errors.{GovernanceError, Outcome, is_store_error, is_file_error}
use torq_pro.Governance.Timestamps.{is_valid_utc_iso8601}
use torq_pro.Governance.Events.{Event, for_aggregate, with_decision, with_key}

pub record EventStore (M : Type 0) : Type 1 where
  pub State : Type 0
  pub append : Event M → State → Outcome (Event M) × State
  pub all_events : State → Outcome (List (Event M))
  pub events_for_aggregate : String → State → Outcome (List (Event M))
  pub find_by_decision_id : String → State → Outcome (Option (Event M))
  pub find_by_idempotency_key : String → State → Outcome (Option (Event M))
  pub events_for_aggregate_lem :
      (a : String) (s : State)
      → events_for_aggregate a s ≡ (all_events s >>= λ events. ok (for_aggregate a events))
  pub find_by_decision_id_lem :
      (d : String) (s : State)
      → find_by_decision_id d s ≡ (all_events s >>= λ events. ok (with_decision d events))
  pub find_by_idempotency_key_lem :
      (k : String) (s : State)
      → find_by_idempotency_key k s
        ≡ (if k == "" then ok none else (all_events s >>= λ events. ok (with_key k events)))
  pub append-raises :
      (e : Event M) (s : State) (x : GovernanceError)
      → (append e s).0 ≡ err x
      → is_store_error x || is_file_error x ≡ true
  pub append-keeps :
      (e : Event M) (s : State) (x : GovernanceError)
      → (append e s).0 ≡ err x
      → all_events (append e s).1 ≡ all_events s
  pub append-adds :
      (e : Event M) (s : State) (events : List (Event M)) (r : Event M)
      → is_valid_utc_iso8601 e.occurred_at ≡ true
      → all_events s ≡ ok events
      → (append e s).0 ≡ ok r
      → all_events (append e s).1 ≡ ok (events ++ e ∷ [])
