-- ===== src/Governance/Api/Reads.antt =====
-- The read routes of the event log and the resolution of its store (backend/governance/api.py).
use torq_pro.Prelude.{
  ℕ, String, Bool, Option, none, some, List, [], ◌∷◌, if◌then◌else◌, ok, err, ◌==◌, string_eq,
  filter, length, blank,
}
use torq_pro.Governance.Enums.{LifecycleGroup}
use torq_pro.Governance.Errors.{GovernanceError, Outcome, corruption_error, store_error}
use torq_pro.Governance.Events.{Metadata, Event}
use torq_pro.Governance.Contract.{EventStore}
use torq_pro.Governance.Service.{event_history, latest_event}

-- What a read ends with.
pub data View (A : Type 0) : Type 0 where
  shown : A → View A
  refused : ℕ → View A
  uncaught : GovernanceError → View A

module _ {A B : Type 0} where
  abbrev pub and_then : View A → (A → View B) → View B
  and_then (shown a) next = next a
  and_then (refused status) next = refused status
  and_then (uncaught e) next = uncaught e

module _ {A : Type 0} where
  -- `except (GovernanceCorruptionError, GovernanceStoreError)`
  unfoldable pub reading : Outcome A → View A
  reading (ok a) = shown a
  reading (err (corruption_error m)) = refused 503
  reading (err (store_error m)) = refused 503
  reading (err e) = uncaught e

  -- `get_governance_store`, for the value of the environment variable; the store at a path is a
  -- parameter of the routes.
  unfoldable pub get_governance_store : Option String → View A → View A
  unfolding blank
  get_governance_store none route = refused 503
  get_governance_store (some raw_path) route = if blank raw_path then refused 503 else route

pub record History (M : Type 0) : Type 0 where
  pub events : List (Event M)
  pub total_events : ℕ

-- The latest event of each group; `status` is its new status.
pub record Latest (M : Type 0) : Type 0 where
  pub review : Option (Event M)
  pub publication : Option (Event M)
  pub resolution : Option (Event M)

module _ {M : Type 0} where
  abbrev pub of_group : LifecycleGroup → Latest M → Option (Event M)
  of_group LifecycleGroup.review v = v.review
  of_group LifecycleGroup.publication v = v.publication
  of_group LifecycleGroup.resolution v = v.resolution

  abbrev pub of_type : String → List (Event M) → List (Event M)
  of_type aggregate_type events = filter (λ e. e.aggregate_type == aggregate_type) events

  abbrev pub known_or_404 : List (Event M) → View (List (Event M))
  known_or_404 [] = refused 404
  known_or_404 (e ∷ es) = shown (e ∷ es)

module _ {M : Type 0} ⦃meta : Metadata M⦄ (store : EventStore M) where
  open store use {State}

  unfoldable pub events_for_aggregate_and_type : String → String → State → View (List (Event M))
  unfolding event_history reading filter
  events_for_aggregate_and_type aggregate_id aggregate_type s =
      and_then (reading (event_history store aggregate_id none s))
        (λ events. shown (of_type aggregate_type events))

  unfoldable pub require_known_aggregate : String → String → State → View (List (Event M))
  unfolding events_for_aggregate_and_type
  require_known_aggregate aggregate_id aggregate_type s =
      and_then (events_for_aggregate_and_type aggregate_id aggregate_type s) known_or_404

  unfoldable pub governance_history : String → String → State → View (History M)
  unfolding require_known_aggregate
  governance_history aggregate_id aggregate_type s =
      and_then (require_known_aggregate aggregate_id aggregate_type s)
        (λ events. shown (record { events = events; total_events = length events }))

  unfoldable pub latest_for : String → LifecycleGroup → State → View (Option (Event M))
  unfolding latest_event reading
  latest_for aggregate_id group s =
      reading (latest_event store aggregate_id (some group) Bool.false s)

  unfoldable pub governance_status : String → String → State → View (Latest M)
  unfolding require_known_aggregate latest_for
  governance_status aggregate_id aggregate_type s =
      and_then (require_known_aggregate aggregate_id aggregate_type s) λ _.
        and_then (latest_for aggregate_id LifecycleGroup.review s) λ review.
          and_then (latest_for aggregate_id LifecycleGroup.publication s) λ publication.
            and_then (latest_for aggregate_id LifecycleGroup.resolution s) λ resolution.
              shown (record { review = review; publication = publication; resolution = resolution })
