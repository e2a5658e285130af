-- ===== src/Governance/Api/Acceptance.antt =====
-- Exactly when a command's closure accepts the effective status: the conditions of
-- docs/adr/ADR-0014 in one test.
use torq_pro.Prelude.{String, ◌≡◌, ◌↔◌, Bool, true, not, ◌&&◌, arith, ok, blank}
use torq_pro.Governance.Enums.{review_value, publication_value, resolution_value}
use torq_pro.Governance.Timestamps.{is_valid_utc_iso8601}
use torq_pro.Governance.Service.Permits.{permits}
use torq_pro.Governance.Commands
use torq_pro.Governance.Commands.{Arguments}
use torq_pro.Governance.Api.{
  Command, submit_review, approve_review, reject_review, activate_publication,
  supersede_publication, archive_publication, resolve_resolution, reject_resolution,
  waive_resolution, arguments,
}
use torq_pro.Governance.Api.Engine.{transition_of, validator_of}

module _ {M : Type 0} where
  -- who or what the command must name: the actor, or for a supersession the successor
  author : Command M → String
  author (submit_review a actor _) = actor
  author (approve_review a actor _) = actor
  author (reject_review a actor _) = actor
  author (activate_publication a actor _ _ _) = actor
  author (supersede_publication a by _ _) = by
  author (archive_publication a actor _) = actor
  author (resolve_resolution a actor _) = actor
  author (reject_resolution a actor _) = actor
  author (waive_resolution a actor _) = actor

  -- The move is in the table, the timestamp is valid, and the required fields are not blank.
  pub accepts : Command M → String → Bool
  unfolding author transition_of permits
  accepts c previous =
      permits (transition_of c).lifecycle_group previous (transition_of c).new_status
      && is_valid_utc_iso8601 (arguments c).occurred_at
      && not (blank (author c))
      && not (blank (arguments c).occurred_at)

  -- A closure accepts the effective status exactly if the group's table has the move from it, the
  -- timestamp is valid and not blank, and the actor (for a supersession, the successor) is not blank.
  pub validator_of-accepts :
      (c : Command M) (previous : String)
      → (validator_of c previous ≡ ok tt) ↔ (accepts c previous ≡ true)
  unfolding validator_of accepts arguments review_value publication_value resolution_value
      Commands.check_review Commands.check_publication Commands.check_resolution
      Commands.submit_review_decision Commands.approve_review_decision
      Commands.reject_review_decision Commands.activate_publication_decision
      Commands.supersede_publication_decision Commands.archive_publication_decision
      Commands.resolution_command_decision
  validator_of-accepts (submit_review a actor reason) previous =
      (λ h. ground arith, λ h. ground arith)
  validator_of-accepts (approve_review a actor comment) previous =
      (λ h. ground arith, λ h. ground arith)
  validator_of-accepts (reject_review a actor comment) previous =
      (λ h. ground arith, λ h. ground arith)
  validator_of-accepts (activate_publication a actor revision supersedes reason) previous =
      (λ h. ground arith, λ h. ground arith)
  validator_of-accepts (supersede_publication a by actor reason) previous =
      (λ h. ground arith, λ h. ground arith)
  validator_of-accepts (archive_publication a actor reason) previous =
      (λ h. ground arith, λ h. ground arith)
  validator_of-accepts (resolve_resolution a actor comment) previous =
      (λ h. ground arith, λ h. ground arith)
  validator_of-accepts (reject_resolution a actor comment) previous =
      (λ h. ground arith, λ h. ground arith)
  validator_of-accepts (waive_resolution a actor comment) previous =
      (λ h. ground arith, λ h. ground arith)
