-- ===== src/Governance/Api/Views.antt =====
-- What the read routes show of a readable log (backend/governance/api.py).
use torq_pro.Prelude.{
  ◌≡◌, refl, ap, ◌∙◌, String, true, false, Option, none, some, List, [], ◌∷◌, ◌++◌, ok, ◌==◌,
  string_eq, filter, filter-snoc, get_last?, get_last?-snoc, matches_refl, length,
}
use torq_pro.Governance.Enums.{LifecycleGroup, group_eq}
use torq_pro.Governance.Events.{Metadata, Event, for_aggregate}
use torq_pro.Governance.Contract.{EventStore}
use torq_pro.Governance.Service.{event_history, latest_event, latest, in_group}
use torq_pro.Governance.Api.{Command, run_command, Reply}
use torq_pro.Governance.Api.Ownership.{run_command-records}
use torq_pro.Governance.Api.Reads.{
  shown, reading, Latest, of_group, of_type, known_or_404, events_for_aggregate_and_type,
  require_known_aggregate, latest_for, governance_status, governance_history,
}

module _ {M : Type 0} where
  -- The latest event of a group in a log.
  abbrev pub last_in : String → LifecycleGroup → List (Event M) → Option (Event M)
  last_in aggregate_id group events =
      get_last? (in_group (some group) (for_aggregate aggregate_id events))

  abbrev pub latest_view : String → List (Event M) → Latest M
  latest_view aggregate_id events = record {
    review = last_in aggregate_id LifecycleGroup.review events;
    publication = last_in aggregate_id LifecycleGroup.publication events;
    resolution = last_in aggregate_id LifecycleGroup.resolution events;
  }

  latest-get_last? :
      (aggregate_id : String) (group : Option LifecycleGroup) (events : List (Event M))
      → latest aggregate_id group false events ≡ ok (get_last? events)
  unfolding latest get_last?
  latest-get_last? aggregate_id group [] = refl
  latest-get_last? aggregate_id group (e ∷ es) = refl

module _ {M : Type 0} ⦃meta : Metadata M⦄ (store : EventStore M) where
  open store use {State, all_events}

  history_of :
      (aggregate_id : String) (group : Option LifecycleGroup) (s : State) (events : List (Event M))
      → all_events s ≡ ok events
      → event_history store aggregate_id group s
        ≡ ok (in_group group (for_aggregate aggregate_id events))
  unfolding event_history
  history_of aggregate_id group s events h =
      rw (event_history, store.events_for_aggregate_lem aggregate_id s, h) refl

  latest_for_of :
      (aggregate_id : String) (group : LifecycleGroup) (s : State) (events : List (Event M))
      → all_events s ≡ ok events
      → latest_for store aggregate_id group s ≡ shown (last_in aggregate_id group events)
  unfolding latest_for latest_event reading
  latest_for_of aggregate_id group s events h =
      rw
        (
          latest_for,
          latest_event,
          history_of aggregate_id (some group) s events h,
          latest-get_last? aggregate_id (some group)
              (in_group (some group) (for_aggregate aggregate_id events)),
        )
        refl

module _ {M : Type 0} where
  snoc_known :
      (xs : List (Event M)) (e : Event M) → known_or_404 (xs ++ e ∷ []) ≡ shown (xs ++ e ∷ [])
  snoc_known [] e = refl
  snoc_known (x ∷ xs) e = refl

  for_aggregate-snoc :
      (events : List (Event M)) (e : Event M)
      → for_aggregate e.aggregate_id (events ++ e ∷ [])
        ≡ for_aggregate e.aggregate_id events ++ e ∷ []
  unfolding for_aggregate
  for_aggregate-snoc events e =
      filter-snoc (λ x. x.aggregate_id == e.aggregate_id) events e
      ∙ rw (matches_refl e.aggregate_id) refl

  of_type-snoc :
      (events : List (Event M)) (e : Event M)
      → of_type e.aggregate_type (events ++ e ∷ []) ≡ of_type e.aggregate_type events ++ e ∷ []
  of_type-snoc events e =
      filter-snoc (λ x. x.aggregate_type == e.aggregate_type) events e
      ∙ rw (matches_refl e.aggregate_type) refl

  last_in-snoc :
      (events : List (Event M)) (e : Event M)
      → last_in e.aggregate_id e.lifecycle_group (events ++ e ∷ []) ≡ some e
  unfolding in_group
  last_in-snoc events e =
      ap (λ es. get_last? (in_group (some e.lifecycle_group) es)) (for_aggregate-snoc events e)
      ∙ ap get_last? (
          filter-snoc (λ x. x.lifecycle_group == e.lifecycle_group)
            (for_aggregate e.aggregate_id events) e
          ∙ rw (matches_refl e.lifecycle_group) refl)
      ∙ get_last?-snoc
          (filter (λ x. x.lifecycle_group == e.lifecycle_group)
            (for_aggregate e.aggregate_id events))
          e

  of_group-latest_view :
      (aggregate_id : String) (group : LifecycleGroup) (events : List (Event M))
      → of_group group (latest_view aggregate_id events) ≡ last_in aggregate_id group events
  of_group-latest_view aggregate_id LifecycleGroup.review events = refl
  of_group-latest_view aggregate_id LifecycleGroup.publication events = refl
  of_group-latest_view aggregate_id LifecycleGroup.resolution events = refl

module _ {M : Type 0} ⦃meta : Metadata M⦄ (store : EventStore M) where
  open store use {State, all_events}

  known_of :
      (s : State) (events : List (Event M)) (e : Event M)
      → all_events s ≡ ok (events ++ e ∷ [])
      → require_known_aggregate store e.aggregate_id e.aggregate_type s
        ≡ shown (of_type e.aggregate_type (for_aggregate e.aggregate_id events) ++ e ∷ [])
  unfolding require_known_aggregate events_for_aggregate_and_type reading in_group
  known_of s events e h =
      rw
        (
          require_known_aggregate,
          events_for_aggregate_and_type,
          history_of store e.aggregate_id none s (events ++ e ∷ []) h,
          for_aggregate-snoc events e,
          of_type-snoc (for_aggregate e.aggregate_id events) e,
        )
        (snoc_known (of_type e.aggregate_type (for_aggregate e.aggregate_id events)) e)

  -- After the HTTP surface has recorded an event, the status route of its aggregate and type shows
  -- it as the latest of its group, and the history route shows it as the last of all.
  pub recorded_is_shown :
      (c : Command M) (fresh : String) (s : State) (events : List (Event M)) (e : Event M)
      → all_events s ≡ ok events
      → (run_command store c fresh s).0 ≡ Reply.done e true
      → (v : Latest M) × (earlier : List (Event M)) × (governance_status store e.aggregate_id
            e.aggregate_type
            (run_command store c fresh s).1
          ≡ shown v)
        × (of_group e.lifecycle_group v ≡ some e)
        × (governance_history store e.aggregate_id e.aggregate_type (run_command store c fresh s).1
            ≡ shown
                (record { events = earlier ++ e ∷ []; total_events = length (earlier ++ e ∷ []) }))
  unfolding governance_status governance_history
  recorded_is_shown c fresh s events e h answer =
      let (read, _) = run_command-records store c fresh s events e h answer in
      let after = (run_command store c fresh s).1 in
      let all = events ++ e ∷ [] in
      let a = e.aggregate_id in
      let known = known_of after events e read in
      (
        latest_view a all,
        of_type e.aggregate_type (for_aggregate a events),
        rw
            (
              governance_status,
              known,
              latest_for_of store a LifecycleGroup.review after all read,
              latest_for_of store a LifecycleGroup.publication after all read,
              latest_for_of store a LifecycleGroup.resolution after all read,
            )
            refl,
        of_group-latest_view a e.lifecycle_group all ∙ last_in-snoc events e,
        rw (governance_history, known) refl,
      )
