-- ===== src/Governance/Api/Conflicts.antt =====
-- A used key and a used decision id: the request that reuses one is refused, and writes nothing.
use torq_pro.Prelude.{
  String, ◌≡◌, ◌≢◌, refl, ◌∙◌, ap, false, none, some, List, ok, err, Bool-cases, inl, inr,
  string_eq,
}
use torq_pro.Governance.Errors.{Outcome, idempotency_conflict, duplicate_decision}
use torq_pro.Governance.Events.{Metadata, Event, with_decision}
use torq_pro.Governance.Contract.{EventStore}
use torq_pro.Governance.Requests.{
  Transition, normalize_request, event_request, event_matches_request,
}
use torq_pro.Governance.Requests.Equality.{same_request-eq}
use torq_pro.Governance.Service.{execute_transition, finish}
use torq_pro.Governance.Service.Plan.{known_key, plan, decide-plan}
use torq_pro.Governance.Service.Log.Unique.{In, known_key-exact, with_decision-exact}
use torq_pro.Governance.Api.{Command, run}
use torq_pro.Governance.Api.Engine.{transition_of, validator_of, run-engine}
use torq_pro.Governance.Api.Runs.{IsSound}

module _ {M : Type 0} ⦃meta : Metadata M⦄ where
  mismatch :
      (e : Event M) (t : Transition M)
      → event_request e ≢ normalize_request t
      → event_matches_request e (normalize_request t) ≡ false
  unfolding event_matches_request
  mismatch e t ne = elim (Bool-cases (event_matches_request e (normalize_request t))) [
    | inl same ↦ absurd (ne (same_request-eq (event_request e) (normalize_request t) same))
    | inr other ↦ other
  ]

  plan-conflict :
      (t : Transition M) (v : String → Outcome (Unit {0})) (fresh : String)
      (events : List (Event M)) (e : Event M)
      → known_key t.idempotency_key events ≡ some e
      → event_request e ≢ normalize_request t
      → plan t v fresh events ≡ err (idempotency_conflict t.idempotency_key)
  unfolding plan
  plan-conflict t v fresh events e known ne = rw (known, mismatch e t ne) refl

  plan-duplicate :
      (t : Transition M) (v : String → Outcome (Unit {0})) (fresh : String)
      (events : List (Event M)) (e : Event M)
      → known_key t.idempotency_key events ≡ none
      → with_decision t.decision_id events ≡ some e
      → plan t v fresh events ≡ err (duplicate_decision t.decision_id)
  unfolding plan
  plan-duplicate t v fresh events e unknown taken = rw (unknown, taken) refl

module _ {M : Type 0} ⦃meta : Metadata M⦄ (store : EventStore M) where
  open store use {State, all_events}

  -- On a store that can be read, a command is the decision of `plan` on the history, followed by the
  -- append of the event if it is new.
  pub run-plan :
      (c : Command M) (fresh : String) (s : State) (events : List (Event M))
      → all_events s ≡ ok events
      → run store c fresh s ≡ finish store (plan (transition_of c) (validator_of c) fresh events) s
  unfolding execute_transition
  run-plan c fresh s events h =
      run-engine store c fresh s
      ∙ ap (λ r. finish store r s)
          (decide-plan store (transition_of c) (validator_of c) fresh s events h)

  -- On a sound store, the non-empty key of a recorded event, sent with a request that differs from
  -- the event's in any compared argument, is refused as a conflict and nothing is written.
  pub reused_key_conflicts :
      (c : Command M) (fresh : String) (s : State) (e : Event M) (h : IsSound store s)
      → In e h.events
      → e.idempotency_key ≢ ""
      → (transition_of c).idempotency_key ≡ e.idempotency_key
      → event_request e ≢ normalize_request (transition_of c)
      → run store c fresh s ≡ (err (idempotency_conflict e.idempotency_key), s)
  unfolding finish
  reused_key_conflicts c fresh s e h i filled same ne =
      run-plan c fresh s h.events h.readable
      ∙ rw
          (plan-conflict (transition_of c) (validator_of c) fresh h.events e
            (rw same (known_key-exact h.events e h.log i filled)) ne)
          (rw same refl)

  -- The decision id of a recorded event, sent under a key that no event has, is refused and nothing
  -- is written.
  pub reused_decision_refused :
      (c : Command M) (fresh : String) (s : State) (e : Event M) (h : IsSound store s)
      → In e h.events
      → known_key (transition_of c).idempotency_key h.events ≡ none
      → (transition_of c).decision_id ≡ e.decision_id
      → run store c fresh s ≡ (err (duplicate_decision e.decision_id), s)
  unfolding finish
  reused_decision_refused c fresh s e h i unknown same =
      run-plan c fresh s h.events h.readable
      ∙ rw
          (plan-duplicate (transition_of c) (validator_of c) fresh h.events e unknown
            (rw same (with_decision-exact h.events e h.log i)))
          (rw same refl)
