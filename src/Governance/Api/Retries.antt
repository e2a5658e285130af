-- ===== src/Governance/Api/Retries.antt =====
-- Idempotency of the nine commands: a retry gives back the first event, at any later time, and a key
-- that is used again for another request is refused.
use torq_pro.Prelude.{
  String, ◌≡◌, ◌≢◌, refl, ◌∙◌, ap, subst, Bool, true, false, Option, some, List, [], ◌∷◌, ◌++◌, ok,
  err, find-append, matches_refl, Bool-cases, inl, inr, ◌==◌, string_eq,
}
use torq_pro.Governance.Errors.{Outcome}
use torq_pro.Governance.Events.{Metadata, Event, with_key}
use torq_pro.Governance.Contract.{EventStore}
use torq_pro.Governance.Requests.{Transition, normalize_request, event_matches_request}
use torq_pro.Governance.Requests.Equality.{same_request_refl}
use torq_pro.Governance.Service.{new_event, execute_transition}
use torq_pro.Governance.Service.Plan.{known_key, plan, decide-plan}
use torq_pro.Governance.Service.Outcomes.{IsNew, After}
use torq_pro.Governance.Service.Log.Unique.{known_key-snoc}
use torq_pro.Governance.Commands.{Arguments}
use torq_pro.Governance.Api.{
  Command, submit_review, approve_review, reject_review, activate_publication,
  supersede_publication, archive_publication, resolve_resolution, reject_resolution,
  waive_resolution, arguments, run,
}
use torq_pro.Governance.Api.Engine.{transition_of, validator_of, run-engine, key-transition_of}
use torq_pro.Governance.Api.Runs.{run-After, replay, replay-grows}

module _ {M : Type 0} (at : String) (id : Option String) where
  abbrev restamped : Arguments M → Arguments M
  restamped a = record a { occurred_at = at; event_id = id }

  -- The same request, sent again with another timestamp and event id.
  abbrev pub retimed : Command M → Command M
  retimed (submit_review a actor reason) = submit_review (restamped a) actor reason
  retimed (approve_review a actor comment) = approve_review (restamped a) actor comment
  retimed (reject_review a actor comment) = reject_review (restamped a) actor comment
  retimed (activate_publication a actor revision supersedes reason) =
      activate_publication (restamped a) actor revision supersedes reason
  retimed (supersede_publication a by actor reason) =
      supersede_publication (restamped a) by actor reason
  retimed (archive_publication a actor reason) = archive_publication (restamped a) actor reason
  retimed (resolve_resolution a actor comment) = resolve_resolution (restamped a) actor comment
  retimed (reject_resolution a actor comment) = reject_resolution (restamped a) actor comment
  retimed (waive_resolution a actor comment) = waive_resolution (restamped a) actor comment

module _ {M : Type 0} ⦃meta : Metadata M⦄ where
  -- what a retry keeps of its request
  abbrev SameRequest : Transition M → Transition M → Type 0
  SameRequest t u =
      (t.idempotency_key ≡ u.idempotency_key) × (normalize_request t ≡ normalize_request u)

  retimed-SameRequest :
      (at : String) (id : Option String) (c : Command M)
      → SameRequest (transition_of c) (transition_of (retimed at id c))
  unfolding transition_of normalize_request
  retimed-SameRequest at id (submit_review a actor reason) = (refl, refl)
  retimed-SameRequest at id (approve_review a actor comment) = (refl, refl)
  retimed-SameRequest at id (reject_review a actor comment) = (refl, refl)
  retimed-SameRequest at id (activate_publication a actor revision supersedes reason) = (refl, refl)
  retimed-SameRequest at id (supersede_publication a by actor reason) = (refl, refl)
  retimed-SameRequest at id (archive_publication a actor reason) = (refl, refl)
  retimed-SameRequest at id (resolve_resolution a actor comment) = (refl, refl)
  retimed-SameRequest at id (reject_resolution a actor comment) = (refl, refl)
  retimed-SameRequest at id (waive_resolution a actor comment) = (refl, refl)

  -- The event of a request is on record under its key.
  IsRecorded : Transition M → List (Event M) → Event M → Type 0
  IsRecorded t events e =
      (known_key t.idempotency_key events ≡ some e)
      × (event_matches_request e (normalize_request t) ≡ true)

  known_key-append :
      (k : String) (events more : List (Event M)) (e : Event M)
      → known_key k events ≡ some e
      → known_key k (events ++ more) ≡ some e
  unfolding known_key with_key
  known_key-append k events more e h = elim (Bool-cases (k == "")) [
    | inl is_empty ↦ cc (rw is_empty at h)
    | inr filled ↦
        rw (filled, find-append (λ x. x.idempotency_key == k) events more, (rw filled at h))
  ]

  new_event-matches :
      (t : Transition M) (p fresh : String)
      → event_matches_request (new_event t p fresh) (normalize_request t) ≡ true
  unfolding event_matches_request new_event normalize_request
  new_event-matches t p fresh = same_request_refl (normalize_request t)

  IsNew-IsRecorded :
      (t : Transition M) (v : String → Outcome (Unit {0})) (fresh : String)
      (events : List (Event M)) (e : Event M)
      → t.idempotency_key ≢ ""
      → IsNew t v fresh events e
      → IsRecorded t (events ++ e ∷ []) e
  unfolding IsRecorded new_event
  IsNew-IsRecorded t v fresh events e ne n =
      let same_key : e.idempotency_key ≡ t.idempotency_key = ap (λ x. x.idempotency_key) n.built in
      (
        rw (
          known_key-snoc t.idempotency_key events e ne,
          n.fresh_key,
          same_key,
          matches_refl t.idempotency_key,
        ),
        rw n.built (new_event-matches t _ fresh),
      )

  still-IsRecorded :
      (at : String) (id : Option String) (c : Command M) (events more : List (Event M))
      (e : Event M)
      → IsRecorded (transition_of c) events e
      → IsRecorded (transition_of (retimed at id c)) (events ++ more) e
  unfolding IsRecorded
  still-IsRecorded at id c events more e (known, matches) =
      let (same_key, same_request) = retimed-SameRequest at id c in
      (
        rw (← same_key) (known_key-append (transition_of c).idempotency_key events more e known),
        rw (← same_request) matches,
      )

  module _ (store : EventStore M) where
    open store use {State, all_events}

    After-IsRecorded :
        (t : Transition M) (v : String → Outcome (Unit {0})) (fresh : String)
        (events : List (Event M)) (p : Outcome (Event M × Bool) × State) (e : Event M)
        (created : Bool)
        → t.idempotency_key ≢ ""
        → After t v fresh events store p
        → p.0 ≡ ok (e, created)
        → (now : List (Event M)) × (all_events p.1 ≡ ok now) × IsRecorded t now e
    unfolding IsRecorded
    After-IsRecorded t v fresh events (err x, s) e created ne a h = cc
    After-IsRecorded t v fresh events (ok (x, false), s) e created ne (old, read) h =
        let same : x ≡ e = cc in
        (events, read, subst (IsRecorded t events) same (old.known, old.matches))
    After-IsRecorded t v fresh events (ok (x, true), s) e created ne (new, read) h =
        let same : x ≡ e = cc in
        (
          events ++ x ∷ [],
          read,
          subst (IsRecorded t (events ++ x ∷ [])) same (IsNew-IsRecorded t v fresh events x ne new),
        )

    -- A request that is on record is answered by its event, and nothing is written.
    retry-recorded :
        (t : Transition M) (v : String → Outcome (Unit {0})) (fresh : String) (s : State)
        (events : List (Event M)) (e : Event M)
        → all_events s ≡ ok events
        → IsRecorded t events e
        → execute_transition store t v fresh s ≡ (ok (e, false), s)
    unfolding execute_transition plan IsRecorded
    retry-recorded t v fresh s events e read (known, matches) =
        rw (decide-plan store t v fresh s events read, known, matches) refl

    -- On a readable store, a command with a non-empty idempotency key that returned an event
    -- returns the same event, and writes nothing, whenever it is sent again with any timestamp and
    -- event id, whatever commands were sent in between.
    pub retry_returns_event :
        (c : Command M) (fresh : String) (s : State) (events : List (Event M)) (e : Event M)
        (created : Bool) (later : List (Command M × String)) (at : String) (id : Option String)
        (fresh' : String)
        → all_events s ≡ ok events
        → (arguments c).idempotency_key ≢ ""
        → (run store c fresh s).0 ≡ ok (e, created)
        → let s' = replay store later (run store c fresh s).1 in
          run store (retimed at id c) fresh' s' ≡ (ok (e, false), s')
    retry_returns_event c fresh s events e created later at id fresh' read ne done =
        let t = transition_of c in
        let s' = replay store later (run store c fresh s).1 in
        let (now, read_now, recorded) =
          After-IsRecorded t (validator_of c) fresh events (run store c fresh s) e created
            (rw (key-transition_of c) ne) (run-After store c fresh events s read) done in
        let (more, read_later) = replay-grows store later now (run store c fresh s).1 read_now in
        run-engine store (retimed at id c) fresh' s'
        ∙ retry-recorded (transition_of (retimed at id c)) (validator_of (retimed at id c)) fresh'
            s' (now ++ more) e read_later (still-IsRecorded at id c now more e recorded)
