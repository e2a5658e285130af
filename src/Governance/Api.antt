-- ===== src/Governance/Api.antt =====
-- The HTTP write surface (backend/governance/api.py): the nine `POST` routes as a type of commands,
-- and `_run_command` with its mapping of exceptions to statuses.
pub mod Runs
pub mod Retries
pub mod Lifecycles
pub mod Conflicts
pub mod Races
pub mod Statuses
pub mod Replies
pub mod Reads
pub mod Views
pub mod Ownership
pub mod Acceptance
pub mod Engine
pub mod Checks
pub mod Guards
use torq_pro.Prelude.{
  ℕ, String, Bool, Option, none, some, List, [], ◌∷◌, if◌then◌else◌, ℤ, Result, ok, err, contains,
  string_eq,
}
use torq_pro.Governance.Errors.{
  GovernanceError, Outcome, invalid_transition, missing_required_field, store_error,
  corruption_error, idempotency_conflict, duplicate_decision, aggregate_not_found, value_error,
  validation_error, os_error, unicode_error,
}
use torq_pro.Governance.Events.{Metadata, Event}
use torq_pro.Governance.Contract.{EventStore}
use torq_pro.Governance.Requests.{Transition}
use torq_pro.Governance.Commands
use torq_pro.Governance.Commands.{Arguments}

-- A command function with its keyword arguments, as each route passes them to `_run_command`.
pub data Command (M : Type 0) : Type 0 where
  submit_review approve_review reject_review : Arguments M → String → Option String → Command M
  activate_publication : Arguments M → String → Option ℤ → Option String → Option String → Command M
  supersede_publication : Arguments M → String → Option String → Option String → Command M
  archive_publication : Arguments M → String → Option String → Command M
  resolve_resolution reject_resolution waive_resolution :
      Arguments M → String → Option String → Command M

unfoldable pub arguments : {M : Type 0} → Command M → Arguments M
arguments (submit_review a _ _) = a
arguments (approve_review a _ _) = a
arguments (reject_review a _ _) = a
arguments (activate_publication a _ _ _ _) = a
arguments (supersede_publication a _ _ _) = a
arguments (archive_publication a _ _) = a
arguments (resolve_resolution a _ _) = a
arguments (reject_resolution a _ _) = a
arguments (waive_resolution a _ _) = a

-- `RESTRICTED_AGGREGATE_TYPES` and `is_externally_owned` (backend/governance/ownership.py)
unfoldable pub restricted_aggregate_types : List String
restricted_aggregate_types = "washer_resolution" ∷ []

unfoldable pub is_externally_owned : String → Bool
unfolding contains restricted_aggregate_types
is_externally_owned aggregate_type = contains aggregate_type restricted_aggregate_types

-- The status of the HTTPException that an exception becomes; `none` passes `_run_command` by and
-- ends as a server error.
unfoldable pub http_status : GovernanceError → Option ℕ
http_status (invalid_transition _ _ _) = some 409
http_status (missing_required_field _ _) = some 422
http_status (idempotency_conflict _) = some 409
http_status (duplicate_decision _) = some 409
http_status (validation_error _) = some 422
http_status (corruption_error _) = some 503
http_status (store_error _) = some 503
http_status (aggregate_not_found _ _) = none
http_status (value_error _) = none
http_status (os_error _) = none
http_status (unicode_error _) = none

-- What a request ends with.
pub data Reply (M : Type 0) : Type 0 where
  done : Event M → Bool → Reply M
  refused : ℕ → Reply M
  uncaught : GovernanceError → Reply M

module _ {M : Type 0} where
  unfoldable pub failure : GovernanceError → Reply M
  unfolding http_status
  failure e = elim (http_status e) [ none ↦ uncaught e | some status ↦ refused status ]

  unfoldable pub reply_of : Outcome (Event M × Bool) → Reply M
  unfolding failure
  reply_of (ok (event, created)) = done event created
  reply_of (err e) = failure e

module _ {M : Type 0} ⦃meta : Metadata M⦄ (store : EventStore M) where
  open store use {State}

  -- `fn(**kwargs)`; `fresh` is the id that `uuid4` would give
  unfoldable pub run : Command M → String → State → Outcome (Event M × Bool) × State
  unfolding Commands.submit_review Commands.approve_review Commands.reject_review
      Commands.activate_publication Commands.supersede_publication Commands.archive_publication
      Commands.resolve_resolution Commands.reject_resolution Commands.waive_resolution
  run (submit_review a actor reason) = Commands.submit_review store a actor reason
  run (approve_review a actor comment) = Commands.approve_review store a actor comment
  run (reject_review a actor comment) = Commands.reject_review store a actor comment
  run (activate_publication a actor revision supersedes reason) =
      Commands.activate_publication store a actor revision supersedes reason
  run (supersede_publication a by actor reason) =
      Commands.supersede_publication store a by actor reason
  run (archive_publication a actor reason) = Commands.archive_publication store a actor reason
  run (resolve_resolution a actor comment) = Commands.resolve_resolution store a actor comment
  run (reject_resolution a actor comment) = Commands.reject_resolution store a actor comment
  run (waive_resolution a actor comment) = Commands.waive_resolution store a actor comment

  abbrev pub answered : Outcome (Event M × Bool) × State → Reply M × State
  answered (r, s) = (reply_of r, s)

  -- `_run_command`
  unfoldable pub run_command : Command M → String → State → Reply M × State
  unfolding run arguments is_externally_owned reply_of
  run_command c fresh s =
      if is_externally_owned (arguments c).aggregate_type
      then (refused 409, s)
      else answered (run c fresh s)
