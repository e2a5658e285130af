-- ===== src/Governance/Service/Outcomes.antt =====
-- What a call of the engine has done, by how it ended: it raised, it returned an event of an earlier
-- call, or it appended a new one.
use torq_pro.Prelude.{
  String, ◌≡◌, refl, Bool, true, false, none, some, List, [], ◌∷◌, ◌++◌, arith, inl, inr, ok, err,
  Bool-cases, Option-cases, Result-cases, ok-injective, ◌∙◌, subst,
}
use torq_pro.Governance.Errors.{Outcome}
use torq_pro.Governance.Timestamps.{is_valid_utc_iso8601}
use torq_pro.Governance.Events.{Metadata, Event, governance_event, with_decision}
use torq_pro.Governance.Contract.{EventStore}
use torq_pro.Governance.Requests.{Transition, normalize_request, event_matches_request}
use torq_pro.Governance.Service.{new_event, persist, finish, execute_transition}
use torq_pro.Governance.Service.Plan.{status_on, known_key, propose, decide_on, plan, decide-plan}

module _ {M : Type 0} ⦃meta : Metadata M⦄ (t : Transition M)
    (validate : String → Outcome (Unit {0})) (fresh : String) (events : List (Event M)) where
  -- A new event was proposed: neither its key nor its decision was known, the closure accepted the
  -- effective status, and the timestamp is valid.
  pub record IsNew (e : Event M) : Type 0 where
    pub fresh_key : known_key t.idempotency_key events ≡ none
    pub fresh_decision : with_decision t.decision_id events ≡ none
    pub accepted : validate (status_on t.aggregate_id t.lifecycle_group events) ≡ ok tt
    pub built : e ≡ new_event t (status_on t.aggregate_id t.lifecycle_group events) fresh
    pub stamped : is_valid_utc_iso8601 t.occurred_at ≡ true

  -- The event is the first with the key, and it matches the request.
  pub record IsRetry (e : Event M) : Type 0 where
    pub known : known_key t.idempotency_key events ≡ some e
    pub matches : event_matches_request e (normalize_request t) ≡ true

  abbrev pub Explained : Event M × Bool → Type 0
  Explained (e, true) = IsNew e
  Explained (e, false) = IsRetry e

  pub stamp : (e : Event M) → IsNew e → is_valid_utc_iso8601 e.occurred_at ≡ true
  unfolding new_event
  stamp e n = rw n.built n.stamped

  propose-Explained :
      (r : Event M × Bool)
      → known_key t.idempotency_key events ≡ none
      → with_decision t.decision_id events ≡ none
      → propose t validate fresh (status_on t.aggregate_id t.lifecycle_group events) ≡ ok r
      → Explained r
  unfolding propose governance_event new_event
  propose-Explained (e, false) k d h = ground arith
  propose-Explained (e, true) k d h = record {
    fresh_key = k;
    fresh_decision = d;
    accepted = ground arith;
    built = ground arith;
    stamped = ground arith;
  }

  retry-Explained :
      (e : Event M) (r : Event M × Bool)
      → known_key t.idempotency_key events ≡ some e
      → decide_on t validate fresh events (some e) ≡ ok r
      → Explained r
  unfolding decide_on
  retry-Explained e r k h = elim (Bool-cases (event_matches_request e (normalize_request t))) [
    | inl same ↦
        subst Explained (ok-injective (rw same at h)) (record { known = k; matches = same })
    | inr other ↦ cc (rw other at h)
  ]

  pub plan-Explained : (r : Event M × Bool) → plan t validate fresh events ≡ ok r → Explained r
  unfolding plan
  plan-Explained r h = elim (Option-cases (known_key t.idempotency_key events)) [
    | inl unseen ↦ elim (Option-cases (with_decision t.decision_id events)) [
      | inl new ↦ propose-Explained r unseen new (rw (unseen, new) at h)
      | inr (d, taken) ↦ cc (rw (unseen, taken) at h)
    ]
    | inr (e, seen) ↦ retry-Explained e r seen (rw seen at h)
  ]

  module _ (store : EventStore M) where
    open store use {State, append, all_events}

    -- The state after a call that began with `events`, by how the call ended.
    abbrev pub After : Outcome (Event M × Bool) × State → Type 0
    After (err x, s') = all_events s' ≡ ok events
    After (ok (e, false), s') = IsRetry e × (all_events s' ≡ ok events)
    After (ok (e, true), s') = IsNew e × (all_events s' ≡ ok (events ++ e ∷ []))

    persist-After :
        (e : Event M) (s : State)
        → all_events s ≡ ok events
        → IsNew e
        → After (persist store e (append e s))
    unfolding persist
    persist-After e s h n = elim (Result-cases (append e s).0) [
      | inl (r, kept) ↦ rw kept (n, store.append-adds e s events r (stamp e n) h kept)
      | inr (x, lost) ↦ rw lost (store.append-keeps e s x lost ∙ h)
    ]

    finish-After :
        (r : Outcome (Event M × Bool)) (s : State)
        → all_events s ≡ ok events
        → ((x : Event M × Bool) → r ≡ ok x → Explained x)
        → After (finish store r s)
    unfolding finish
    finish-After (err x) s h explained = h
    finish-After (ok (e, false)) s h explained = (explained (e, false) refl, h)
    finish-After (ok (e, true)) s h explained = persist-After e s h (explained (e, true) refl)

    -- A call of the engine raises and leaves the history, returns an earlier event and leaves the
    -- history, or appends its one event at the end.
    pub execute_transition-After :
        (s : State) → all_events s ≡ ok events → After (execute_transition store t validate fresh s)
    unfolding execute_transition
    execute_transition-After s h =
        finish-After _ s h (rw (decide-plan store t validate fresh s events h) plan-Explained)
