-- ===== src/Governance/Service/Log.antt =====
-- The histories that the engine can write: every event is new, follows the effective status of its
-- aggregate, and makes a move that the group's table has.
pub mod Histories
pub mod Unique
use torq_pro.Prelude.{
  ℕ, ◌+◌, ◌≤◌, String, ◌≡◌, refl, Bool, true, false, ◌&&◌, Option, none, some, List, [], ◌∷◌, ◌++◌,
  arith, inl, inr, if◌then◌else◌, ◌==◌, string_eq, filter, filter-filter, filter-snoc, get_last?,
  get_last?-snoc, length, length-append, Bool-cases, append-nil,
}
use torq_pro.Governance.Enums.{LifecycleGroup, group_eq}
use torq_pro.Governance.Timestamps.{is_valid_utc_iso8601}
use torq_pro.Governance.Events.{Event, for_aggregate, with_decision}
use torq_pro.Governance.Service.{in_group, status_after, initial_status}
use torq_pro.Governance.Service.Permits.{permits, rank, last_rank, permits-rank, rank-le-last_rank}
use torq_pro.Governance.Service.Plan.{history, status_on, known_key}

module _ {M : Type 0} where
  -- What holds of an event that is appended to a history.
  pub record Follows (events : List (Event M)) (e : Event M) : Type 0 where
    pub fresh_key : known_key e.idempotency_key events ≡ none
    pub fresh_decision : with_decision e.decision_id events ≡ none
    pub continues : e.previous_status ≡ status_on e.aggregate_id e.lifecycle_group events
    pub permitted : permits e.lifecycle_group e.previous_status e.new_status ≡ true
    pub stamped : is_valid_utc_iso8601 e.occurred_at ≡ true

  pub data Log : List (Event M) → Type 0 where
    start : {l : List (Event M)} → l ≡ [] → Log l
    grow :
        {l : List (Event M)} (events : List (Event M)) (e : Event M)
        → Log events
        → Follows events e
        → l ≡ events ++ e ∷ []
        → Log l

  -- the event is of the aggregate and the group
  abbrev pub concerns : String → LifecycleGroup → Event M → Bool
  concerns a g e = (e.aggregate_id == a) && (e.lifecycle_group == g)

  history-eq-filter :
      (a : String) (g : LifecycleGroup) (events : List (Event M))
      → history a g events ≡ filter (concerns a g) events
  unfolding history
  history-eq-filter a g events =
      filter-filter (λ x. x.aggregate_id == a) (λ x. x.lifecycle_group == g) events

  pub history-snoc :
      (a : String) (g : LifecycleGroup) (events : List (Event M)) (e : Event M)
      → history a g (events ++ e ∷ [])
        ≡ (if concerns a g e then history a g events ++ e ∷ [] else history a g events)
  history-snoc a g events e = simp history-eq-filter (filter-snoc (concerns a g) events e)

  -- An event changes the effective status of its own aggregate and group alone.
  pub status_on-snoc :
      (a : String) (g : LifecycleGroup) (events : List (Event M)) (e : Event M)
      → status_on a g (events ++ e ∷ [])
        ≡ (if concerns a g e then e.new_status else status_on a g events)
  unfolding status_on status_after
  status_on-snoc a g events e = rw (history-snoc a g events e) (elim (Bool-cases (concerns a g e)) [
    | inl same ↦ rw (same, get_last?-snoc)
    | inr other ↦ rw other
  ])
