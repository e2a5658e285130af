-- ===== src/Governance/Service/Plan.antt =====
-- What the engine decides, as a function of the event list alone, and the proof that the engine
-- decides so over any store that can be read.
use torq_pro.Prelude.{
  String, ◌≡◌, refl, Bool, true, false, Option, none, some, List, [], ◌∷◌, inl, inr, if◌then◌else◌,
  ◌==◌, string_eq, ok, err, ◌>>=◌, ◌>>◌, get_last?, Bool-cases, Option-cases, Result-cases, ◌∙◌,
}
use torq_pro.Governance.Enums.{LifecycleGroup}
use torq_pro.Governance.Errors.{Outcome, idempotency_conflict, duplicate_decision}
use torq_pro.Governance.Events.{
  Metadata, Event, governance_event, for_aggregate, with_decision, with_key,
}
use torq_pro.Governance.Contract.{EventStore}
use torq_pro.Governance.Requests.{Transition, normalize_request, event_matches_request}
use torq_pro.Governance.Service.{
  in_group, latest, status_after, new_event, effective_status, decide,
}

module _ {M : Type 0} where
  -- the events of one aggregate in one lifecycle group
  unfoldable pub history : String → LifecycleGroup → List (Event M) → List (Event M)
  unfolding in_group for_aggregate
  history aggregate_id group events = in_group (some group) (for_aggregate aggregate_id events)

  unfoldable pub status_on : String → LifecycleGroup → List (Event M) → String
  unfolding history status_after get_last?
  status_on aggregate_id group events =
      status_after group (get_last? (history aggregate_id group events))

  -- An empty key finds nothing.
  unfoldable pub known_key : String → List (Event M) → Option (Event M)
  unfolding with_key
  known_key key events = if key == "" then none else with_key key events

  latest-status :
      (a : String) (g : LifecycleGroup) (es : List (Event M))
      → (latest a (some g) false es >>= λ e. ok (status_after g e))
        ≡ ok (status_after g (get_last? es))
  unfolding latest get_last?
  latest-status a g [] = refl
  latest-status a g (e ∷ es) = refl

module _ {M : Type 0} ⦃meta : Metadata M⦄ where
  -- the new event, if the closure accepts the effective status
  unfoldable pub propose :
      Transition M → (String → Outcome (Unit {0})) → String → String → Outcome (Event M × Bool)
  unfolding governance_event new_event
  propose t validate fresh previous_status = do
    validate previous_status
    event ← governance_event (new_event t previous_status fresh)
    ok (event, true)

  unfoldable pub decide_unseen :
      Transition M
      → (String → Outcome (Unit {0}))
      → String
      → List (Event M)
      → Option (Event M)
      → Outcome (Event M × Bool)
  unfolding propose status_on
  decide_unseen t validate fresh events (some d) = err (duplicate_decision t.decision_id)
  decide_unseen t validate fresh events none =
      propose t validate fresh (status_on t.aggregate_id t.lifecycle_group events)

  unfoldable pub decide_on :
      Transition M
      → (String → Outcome (Unit {0}))
      → String
      → List (Event M)
      → Option (Event M)
      → Outcome (Event M × Bool)
  unfolding decide_unseen with_decision event_matches_request normalize_request
  decide_on t validate fresh events (some e) =
      if event_matches_request e (normalize_request t)
      then ok (e, false)
      else err (idempotency_conflict t.idempotency_key)
  decide_on t validate fresh events none =
      decide_unseen t validate fresh events (with_decision t.decision_id events)

  -- the decision of the engine on a given event list
  unfoldable pub plan :
      Transition M
      → (String → Outcome (Unit {0}))
      → String
      → List (Event M)
      → Outcome (Event M × Bool)
  unfolding decide_on known_key
  plan t validate fresh events =
      decide_on t validate fresh events (known_key t.idempotency_key events)

  module _ (store : EventStore M) where
    open store use {State, all_events}

    pub effective_status-eq :
        (a : String) (g : LifecycleGroup) (s : State) (events : List (Event M))
        → all_events s ≡ ok events
        → effective_status store a g s ≡ ok (status_on a g events)
    unfolding effective_status for_aggregate history status_on
    effective_status-eq a g s events h =
        rw (store.events_for_aggregate_lem a s, h) (latest-status a g (history a g events))

    key-eq :
        (k : String) (s : State) (events : List (Event M))
        → all_events s ≡ ok events
        → store.find_by_idempotency_key k s ≡ ok (known_key k events)
    unfolding known_key
    key-eq k s events h =
        store.find_by_idempotency_key_lem k s
        ∙ elim (Bool-cases (k == "")) [ inl e ↦ rw e | inr e ↦ rw (e, h) ]

    propose-eq :
        (t : Transition M) (validate : String → Outcome (Unit {0})) (fresh p : String)
        → (validate p >> governance_event (new_event t p fresh) >>= λ e. ok (e, true))
          ≡ propose t validate fresh p
    unfolding propose
    propose-eq t validate fresh p = elim (Result-cases (validate p)) [
      | inl (u, e) ↦ rw e
      | inr (x, e) ↦ rw e
    ]

    -- The engine decides as `plan` says.
    pub decide-plan :
        (t : Transition M) (validate : String → Outcome (Unit {0})) (fresh : String) (s : State)
        (events : List (Event M))
        → all_events s ≡ ok events
        → decide store t validate fresh s ≡ plan t validate fresh events
    unfolding decide plan
    decide-plan t validate fresh s events h =
        rw (key-eq t.idempotency_key s events h)
          (elim (Option-cases (known_key t.idempotency_key events)) [
            | inl unseen ↦
                rw (unseen, store.find_by_decision_id_lem t.decision_id s, h)
                  (elim (Option-cases (with_decision t.decision_id events)) [
                    | inl new ↦
                        rw (new, effective_status-eq t.aggregate_id t.lifecycle_group s events h)
                          (propose-eq t validate fresh _)
                    | inr (d, taken) ↦ rw taken
                  ])
            | inr (e, seen) ↦
                rw seen (elim (Bool-cases (event_matches_request e (normalize_request t))) [
                  | inl same ↦ rw same
                  | inr other ↦ rw other
                ])
          ])
