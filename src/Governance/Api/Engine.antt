-- ===== src/Governance/Api/Engine.antt =====
-- Every command is a call of the engine: with which arguments, and with a closure that accepts only
-- the moves of the group's transition table.
use torq_pro.Prelude.{String, ◌≡◌, refl}
use torq_pro.Governance.Enums.{ResolutionStatus}
use torq_pro.Governance.Errors.{Outcome}
use torq_pro.Governance.Events.{Metadata}
use torq_pro.Governance.Contract.{EventStore}
use torq_pro.Governance.Requests.{Transition}
use torq_pro.Governance.Service.{execute_transition}
use torq_pro.Governance.Commands
use torq_pro.Governance.Api.{
  Command, submit_review, approve_review, reject_review, activate_publication,
  supersede_publication, archive_publication, resolve_resolution, reject_resolution,
  waive_resolution, arguments, run,
}

module _ {M : Type 0} where
  unfoldable pub transition_of : Command M → Transition M
  unfolding Commands.submit_review_transition Commands.approve_review_transition
      Commands.reject_review_transition Commands.activate_publication_transition
      Commands.supersede_publication_transition Commands.archive_publication_transition
      Commands.resolution_command_transition
  transition_of (submit_review a actor reason) = Commands.submit_review_transition a actor reason
  transition_of (approve_review a actor comment) =
      Commands.approve_review_transition a actor comment
  transition_of (reject_review a actor comment) = Commands.reject_review_transition a actor comment
  transition_of (activate_publication a actor revision supersedes reason) =
      Commands.activate_publication_transition a actor revision supersedes reason
  transition_of (supersede_publication a by actor reason) =
      Commands.supersede_publication_transition a by actor reason
  transition_of (archive_publication a actor reason) =
      Commands.archive_publication_transition a actor reason
  transition_of (resolve_resolution a actor comment) =
      Commands.resolution_command_transition a actor ResolutionStatus.resolved comment
  transition_of (reject_resolution a actor comment) =
      Commands.resolution_command_transition a actor ResolutionStatus.rejected comment
  transition_of (waive_resolution a actor comment) =
      Commands.resolution_command_transition a actor ResolutionStatus.waived comment

  unfoldable pub validator_of : Command M → String → Outcome (Unit {0})
  validator_of (submit_review a actor reason) =
      Commands.check_review (Commands.submit_review_decision a actor reason)
  validator_of (approve_review a actor comment) =
      Commands.check_review (Commands.approve_review_decision a actor comment)
  validator_of (reject_review a actor comment) =
      Commands.check_review (Commands.reject_review_decision a actor comment)
  validator_of (activate_publication a actor revision supersedes reason) =
      Commands.check_publication
        (Commands.activate_publication_decision a actor revision supersedes reason)
  validator_of (supersede_publication a by actor reason) =
      Commands.check_publication (Commands.supersede_publication_decision a by reason)
  validator_of (archive_publication a actor reason) =
      Commands.check_publication (Commands.archive_publication_decision a actor reason)
  validator_of (resolve_resolution a actor comment) =
      Commands.check_resolution
        (Commands.resolution_command_decision a actor ResolutionStatus.resolved comment)
  validator_of (reject_resolution a actor comment) =
      Commands.check_resolution
        (Commands.resolution_command_decision a actor ResolutionStatus.rejected comment)
  validator_of (waive_resolution a actor comment) =
      Commands.check_resolution
        (Commands.resolution_command_decision a actor ResolutionStatus.waived comment)

module _ {M : Type 0} where
  pub key-transition_of :
      (c : Command M) → (transition_of c).idempotency_key ≡ (arguments c).idempotency_key
  unfolding transition_of arguments
  key-transition_of (submit_review a actor reason) = refl
  key-transition_of (approve_review a actor comment) = refl
  key-transition_of (reject_review a actor comment) = refl
  key-transition_of (activate_publication a actor revision supersedes reason) = refl
  key-transition_of (supersede_publication a by actor reason) = refl
  key-transition_of (archive_publication a actor reason) = refl
  key-transition_of (resolve_resolution a actor comment) = refl
  key-transition_of (reject_resolution a actor comment) = refl
  key-transition_of (waive_resolution a actor comment) = refl

  pub type-transition_of :
      (c : Command M) → (transition_of c).aggregate_type ≡ (arguments c).aggregate_type
  unfolding transition_of arguments
  type-transition_of (submit_review a actor reason) = refl
  type-transition_of (approve_review a actor comment) = refl
  type-transition_of (reject_review a actor comment) = refl
  type-transition_of (activate_publication a actor revision supersedes reason) = refl
  type-transition_of (supersede_publication a by actor reason) = refl
  type-transition_of (archive_publication a actor reason) = refl
  type-transition_of (resolve_resolution a actor comment) = refl
  type-transition_of (reject_resolution a actor comment) = refl
  type-transition_of (waive_resolution a actor comment) = refl

module _ {M : Type 0} ⦃meta : Metadata M⦄ (store : EventStore M) where
  open store use {State}

  pub run-engine :
      (c : Command M) (fresh : String) (s : State)
      → run store c fresh s ≡ execute_transition store (transition_of c) (validator_of c) fresh s
  unfolding run transition_of validator_of Commands.submit_review Commands.approve_review
      Commands.reject_review Commands.activate_publication Commands.supersede_publication
      Commands.archive_publication Commands.resolve_resolution Commands.reject_resolution
      Commands.waive_resolution Commands.resolution_command
  run-engine (submit_review a actor reason) fresh s = refl
  run-engine (approve_review a actor comment) fresh s = refl
  run-engine (reject_review a actor comment) fresh s = refl
  run-engine (activate_publication a actor revision supersedes reason) fresh s = refl
  run-engine (supersede_publication a by actor reason) fresh s = refl
  run-engine (archive_publication a actor reason) fresh s = refl
  run-engine (resolve_resolution a actor comment) fresh s = refl
  run-engine (reject_resolution a actor comment) fresh s = refl
  run-engine (waive_resolution a actor comment) fresh s = refl
