-- ===== src/Governance/Api/Lifecycles.antt =====
-- What commands do to the lifecycles: each passes once, a terminal status is final, and a command
-- touches only the lifecycle that it names.
use torq_pro.Prelude.{
  ◌≤◌, String, ◌≡◌, refl, sym, ◌∙◌, ap, subst, Bool, true, false, Option, none, some, List, [], ◌∷◌,
  ◌++◌, arith, ok, err, Bool-cases, inl, inr, length, contains, ok-injective, get_last?, ◌≢◌, ◌⊎◌,
}
use torq_pro.Governance.Enums.{
  LifecycleGroup, ReviewStatus, PublicationStatus, ResolutionStatus, review_of, publication_of,
  resolution_of, review_terminal, publication_terminal, resolution_terminal, review_eq,
  publication_eq, resolution_eq,
}
use torq_pro.Governance.Errors.{Outcome}
use torq_pro.Governance.Events.{Metadata, Event, for_aggregate}
use torq_pro.Governance.Contract.{EventStore}
use torq_pro.Governance.Service.{new_event, event_history, effective_status, status_after}
use torq_pro.Governance.Service.Permits.{rank, last_rank}
use torq_pro.Governance.Service.Plan.{history, status_on, effective_status-eq}
use torq_pro.Governance.Service.Outcomes.{IsNew, After}
use torq_pro.Governance.Service.Log.{concerns, history-snoc}
use torq_pro.Governance.Service.Log.Histories.{history_bound, Follows-terminal, concerns-eq}
use torq_pro.Governance.Api.{Command, run}
use torq_pro.Governance.Api.Engine.{transition_of, validator_of}
use torq_pro.Governance.Api.Runs.{IsSound, IsNew-Follows, run-After, replay}

abbrev pub terminal_review : Option ReviewStatus → Bool
unfolding contains review_terminal
terminal_review (some s) = contains s review_terminal
terminal_review none = false

abbrev pub terminal_publication : Option PublicationStatus → Bool
unfolding contains publication_terminal
terminal_publication (some s) = contains s publication_terminal
terminal_publication none = false

abbrev pub terminal_resolution : Option ResolutionStatus → Bool
unfolding contains resolution_terminal
terminal_resolution (some s) = contains s resolution_terminal
terminal_resolution none = false

-- The status is in the group's terminal set.
unfoldable pub is_terminal : LifecycleGroup → String → Bool
unfolding terminal_review terminal_publication terminal_resolution
is_terminal LifecycleGroup.review s = terminal_review (review_of s)
is_terminal LifecycleGroup.publication s = terminal_publication (publication_of s)
is_terminal LifecycleGroup.resolution s = terminal_resolution (resolution_of s)

-- The terminal statuses are the last of their lifecycles.
pub rank-terminal :
    (g : LifecycleGroup) (s : String) → is_terminal g s ≡ true → rank g s ≡ last_rank g
unfolding is_terminal rank
rank-terminal LifecycleGroup.review s h = ground arith
rank-terminal LifecycleGroup.publication s h = ground arith
rank-terminal LifecycleGroup.resolution s h = ground arith

module _ {M : Type 0} ⦃meta : Metadata M⦄ where
  -- The new event of a command about another aggregate or group concerns neither.
  elsewhere :
      (c : Command M) (fresh a : String) (g : LifecycleGroup) (events : List (Event M))
      (e : Event M)
      → (transition_of c).aggregate_id ≢ a ⊎ (transition_of c).lifecycle_group ≢ g
      → IsNew (transition_of c) (validator_of c) fresh events e
      → concerns a g e ≡ false
  unfolding new_event
  elsewhere c fresh a g events e other n = elim (Bool-cases (concerns a g e)) [
    | inr apart ↦ apart
    | inl together ↦
        let (same_id, same_group) = concerns-eq a g e together in
        absurd (elim other [
          | inl ne ↦ ne (sym (ap (λ x. x.aggregate_id) n.built) ∙ same_id)
          | inr ne ↦ ne (sym (ap (λ x. x.lifecycle_group) n.built) ∙ same_group)
        ])
  ]

module _ {M : Type 0} ⦃meta : Metadata M⦄ (store : EventStore M) where
  open store use {State, all_events}

  pub event_history-eq :
      (a : String) (g : LifecycleGroup) (s : State) (events : List (Event M))
      → all_events s ≡ ok events
      → event_history store a (some g) s ≡ ok (history a g events)
  unfolding event_history history for_aggregate
  event_history-eq a g s events h = rw (store.events_for_aggregate_lem a s, h) refl

  -- However many commands ran, an aggregate has at most as many events in a lifecycle as the
  -- lifecycle has steps.
  pub length-event_history :
      (a : String) (g : LifecycleGroup) (s : State) (events : List (Event M))
      → IsSound store s
      → event_history store a (some g) s ≡ ok events
      → length events ≤ last_rank g
  length-event_history a g s events h e =
      subst (λ x. length x ≤ last_rank g)
        (ok-injective (sym (event_history-eq a g s h.events h.readable) ∙ e))
        (history_bound a g h.events h.log)

  After-terminal :
      (c : Command M) (fresh : String) (a : String) (g : LifecycleGroup) (events : List (Event M))
      (p : Outcome (Event M × Bool) × State)
      → rank g (status_on a g events) ≡ last_rank g
      → After (transition_of c) (validator_of c) fresh events store p
      → (now : List (Event M)) × (all_events p.1 ≡ ok now) × (history a g now ≡ history a g events)
  After-terminal c fresh a g events (err x, s) top h = (events, h, refl)
  After-terminal c fresh a g events (ok (e, false), s) top (old, h) = (events, h, refl)
  After-terminal c fresh a g events (ok (e, true), s) top (new, h) = (
    events ++ e ∷ [],
    h,
    rw
        (
          history-snoc a g events e,
          Follows-terminal a g events e (IsNew-Follows c fresh events e new) top,
        )
        refl,
  )

  replay-terminal :
      (cs : List (Command M × String)) (a : String) (g : LifecycleGroup) (s : State)
      (events : List (Event M))
      → all_events s ≡ ok events
      → rank g (status_on a g events) ≡ last_rank g
      → event_history store a (some g) (replay store cs s) ≡ ok (history a g events)
  unfolding replay
  replay-terminal [] a g s events h top = event_history-eq a g s events h
  replay-terminal ((c, fresh) ∷ later) a g s events h top =
      let (now, read, same) =
        After-terminal c fresh a g events (run store c fresh s) top
          (run-After store c fresh events s h) in
      replay-terminal later a g (run store c fresh s).1 now read
        (unfold status_on in ap (λ l. rank g (status_after g (get_last? l))) same ∙ top)
      ∙ ap ok same

  -- Once an aggregate's effective status in a group is terminal, no sequence of commands changes its
  -- history there.
  pub terminal_is_final :
      (cs : List (Command M × String)) (a : String) (g : LifecycleGroup) (s : State)
      (events : List (Event M)) (status : String)
      → all_events s ≡ ok events
      → effective_status store a g s ≡ ok status
      → is_terminal g status ≡ true
      → event_history store a (some g) (replay store cs s) ≡ event_history store a (some g) s
  terminal_is_final cs a g s events status h now last =
      replay-terminal cs a g s events h (
        subst (λ x. rank g x ≡ last_rank g)
          (ok-injective (sym now ∙ effective_status-eq store a g s events h))
          (rank-terminal g status last))
      ∙ sym (event_history-eq a g s events h)

  After-frame :
      (c : Command M) (fresh : String) (a : String) (g : LifecycleGroup) (events : List (Event M))
      (p : Outcome (Event M × Bool) × State)
      → (transition_of c).aggregate_id ≢ a ⊎ (transition_of c).lifecycle_group ≢ g
      → After (transition_of c) (validator_of c) fresh events store p
      → event_history store a (some g) p.1 ≡ ok (history a g events)
  After-frame c fresh a g events (err x, s) other h = event_history-eq a g s events h
  After-frame c fresh a g events (ok (e, false), s) other (old, h) = event_history-eq a g s events h
  After-frame c fresh a g events (ok (e, true), s) other (new, h) =
      event_history-eq a g s (events ++ e ∷ []) h
      ∙ ap ok (rw (history-snoc a g events e, elsewhere c fresh a g events e other new) refl)

  -- A command leaves the history of every other aggregate, and of every other group of its own
  -- aggregate, as it was.
  pub run-frame :
      (c : Command M) (fresh : String) (a : String) (g : LifecycleGroup) (s : State)
      (events : List (Event M))
      → all_events s ≡ ok events
      → (transition_of c).aggregate_id ≢ a ⊎ (transition_of c).lifecycle_group ≢ g
      → event_history store a (some g) (run store c fresh s).1 ≡ event_history store a (some g) s
  run-frame c fresh a g s events h other =
      After-frame c fresh a g events (run store c fresh s) other
        (run-After store c fresh events s h)
      ∙ sym (event_history-eq a g s events h)
