-- ===== src/Governance/Api/Runs.antt =====
-- Commands one after another on a store: the history only grows, and stays one that the engine's
-- rules explain.
use torq_pro.Prelude.{
  String, ◌≡◌, refl, sym, ◌∙◌, ap, subst, Bool, true, false, List, [], ◌∷◌, ◌++◌, append-nil,
  append_assoc, ok, err,
}
use torq_pro.Governance.Errors.{Outcome}
use torq_pro.Governance.Events.{Metadata, Event}
use torq_pro.Governance.Contract.{EventStore}
use torq_pro.Governance.Service.{new_event}
use torq_pro.Governance.Service.Outcomes.{IsNew, After, execute_transition-After}
use torq_pro.Governance.Service.Log.{Follows, Log, grow}
use torq_pro.Governance.Api.{Command, run}
use torq_pro.Governance.Api.Engine.{transition_of, validator_of, run-engine}
use torq_pro.Governance.Api.Guards.{validator_of-permits}

module _ {M : Type 0} ⦃meta : Metadata M⦄ where
  -- A new event follows the history that it was decided on.
  pub IsNew-Follows :
      (c : Command M) (fresh : String) (events : List (Event M)) (e : Event M)
      → IsNew (transition_of c) (validator_of c) fresh events e
      → Follows events e
  unfolding new_event
  IsNew-Follows c fresh events e n = subst (Follows events) (sym n.built) (record {
    fresh_key = n.fresh_key;
    fresh_decision = n.fresh_decision;
    continues = refl;
    permitted = validator_of-permits c _ n.accepted;
    stamped = n.stamped;
  })

module _ {M : Type 0} ⦃meta : Metadata M⦄ (store : EventStore M) where
  open store use {State, all_events}

  -- The store can be read, and its history is one that the engine's rules explain.
  pub record IsSound (s : State) : Type 0 where
    pub events : List (Event M)
    pub readable : all_events s ≡ ok events
    pub log : Log events

  pub run-After :
      (c : Command M) (fresh : String) (events : List (Event M)) (s : State)
      → all_events s ≡ ok events
      → After (transition_of c) (validator_of c) fresh events store (run store c fresh s)
  run-After c fresh events s h =
      subst (After (transition_of c) (validator_of c) fresh events store)
        (sym (run-engine store c fresh s))
        (execute_transition-After (transition_of c) (validator_of c) fresh events store s h)

  After-IsSound :
      (c : Command M) (fresh : String) (events : List (Event M))
      (p : Outcome (Event M × Bool) × State)
      → Log events
      → After (transition_of c) (validator_of c) fresh events store p
      → IsSound p.1
  After-IsSound c fresh events (err x, s) log h = record {
    events = events;
    readable = h;
    log = log;
  }
  After-IsSound c fresh events (ok (e, false), s) log (old, h) = record {
    events = events;
    readable = h;
    log = log;
  }
  After-IsSound c fresh events (ok (e, true), s) log (new, h) = record {
    events = events ++ e ∷ [];
    readable = h;
    log = grow events e log (IsNew-Follows c fresh events e new) refl;
  }

  -- Every command, whether it raises or returns, keeps the store sound.
  pub run-IsSound :
      (c : Command M) (fresh : String) (s : State) → IsSound s → IsSound (run store c fresh s).1
  run-IsSound c fresh s h =
      After-IsSound c fresh h.events (run store c fresh s) h.log
        (run-After c fresh h.events s h.readable)

  -- Commands in turn, each with the id that `uuid4` would give it; what one of them raises ends that
  -- command alone.
  unfoldable pub replay : List (Command M × String) → State → State
  replay [] s = s
  replay ((c, fresh) ∷ later) s = replay later (run store c fresh s).1

  pub replay-IsSound :
      (cs : List (Command M × String)) (s : State) → IsSound s → IsSound (replay cs s)
  unfolding replay
  replay-IsSound [] s h = h
  replay-IsSound ((c, fresh) ∷ later) s h =
      replay-IsSound later (run store c fresh s).1 (run-IsSound c fresh s h)

  After-grows :
      (c : Command M) (fresh : String) (events : List (Event M))
      (p : Outcome (Event M × Bool) × State)
      → After (transition_of c) (validator_of c) fresh events store p
      → (more : List (Event M)) × (all_events p.1 ≡ ok (events ++ more))
  After-grows c fresh events (err x, s) h = ([], h ∙ ap ok (sym (append-nil events)))
  After-grows c fresh events (ok (e, false), s) (old, h) = ([], h ∙ ap ok (sym (append-nil events)))
  After-grows c fresh events (ok (e, true), s) (new, h) = (e ∷ [], h)

  -- No sequence of commands rewrites or removes a recorded event.
  pub replay-grows :
      (cs : List (Command M × String)) (events : List (Event M)) (s : State)
      → all_events s ≡ ok events
      → (more : List (Event M)) × (all_events (replay cs s) ≡ ok (events ++ more))
  unfolding replay
  replay-grows [] events s h = ([], h ∙ ap ok (sym (append-nil events)))
  replay-grows ((c, fresh) ∷ later) events s h =
      let (more, grown) =
        After-grows c fresh events (run store c fresh s) (run-After c fresh events s h) in
      let (rest, end) = replay-grows later (events ++ more) (run store c fresh s).1 grown in
      (more ++ rest, end ∙ ap ok (append_assoc events more rest))
