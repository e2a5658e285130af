-- ===== src/Governance/Api/Guards.antt =====
-- The closures of the nine commands and the group's transition table.
use torq_pro.Prelude.{String, ◌≡◌, true, some, ok}
use torq_pro.Governance.Enums.{
  ReviewStatus, PublicationStatus, ResolutionStatus, LifecycleGroup, review_of, publication_of,
  resolution_of, review_value, publication_value, resolution_value, review_transitions,
  publication_transitions, resolution_transitions, review_eq, publication_eq, resolution_eq,
}
use torq_pro.Governance.Transitions.{is_transition_allowed}
use torq_pro.Governance.Service.Permits.{permits}
use torq_pro.Governance.Commands
use torq_pro.Governance.Api.{
  Command, submit_review, approve_review, reject_review, activate_publication,
  supersede_publication, archive_publication, resolve_resolution, reject_resolution,
  waive_resolution,
}
use torq_pro.Governance.Api.Engine.{transition_of, validator_of}
use torq_pro.Governance.Api.Checks.{
  review_of-value, publication_of-value, resolution_of-value, check_review-allowed,
  check_publication-allowed, check_resolution-allowed,
}

review-permits :
    (s : String) (p n : ReviewStatus)
    → review_of s ≡ some p
    → is_transition_allowed review_transitions p n ≡ true
    → permits LifecycleGroup.review s (review_value n) ≡ true
unfolding permits
review-permits s p n known h = rw (known, review_of-value n) h

publication-permits :
    (s : String) (p n : PublicationStatus)
    → publication_of s ≡ some p
    → is_transition_allowed publication_transitions p n ≡ true
    → permits LifecycleGroup.publication s (publication_value n) ≡ true
unfolding permits
publication-permits s p n known h = rw (known, publication_of-value n) h

resolution-permits :
    (s : String) (p n : ResolutionStatus)
    → resolution_of s ≡ some p
    → is_transition_allowed resolution_transitions p n ≡ true
    → permits LifecycleGroup.resolution s (resolution_value n) ≡ true
unfolding permits
resolution-permits s p n known h = rw (known, resolution_of-value n) h

module _ {M : Type 0} where
  -- A closure accepts a status only if the group's table has the move to the command's new status.
  pub validator_of-permits :
      (c : Command M) (previous : String)
      → validator_of c previous ≡ ok tt
      → permits (transition_of c).lifecycle_group previous (transition_of c).new_status ≡ true
  unfolding validator_of transition_of Commands.submit_review_decision
      Commands.submit_review_transition Commands.approve_review_decision
      Commands.approve_review_transition Commands.reject_review_decision
      Commands.reject_review_transition Commands.activate_publication_decision
      Commands.activate_publication_transition Commands.supersede_publication_decision
      Commands.supersede_publication_transition Commands.archive_publication_decision
      Commands.archive_publication_transition Commands.resolution_command_decision
      Commands.resolution_command_transition
  validator_of-permits (submit_review a actor reason) previous h =
      let (p, known, allowed) =
        check_review-allowed (Commands.submit_review_decision a actor reason) previous h in
      review-permits previous p ReviewStatus.under_review known allowed
  validator_of-permits (approve_review a actor comment) previous h =
      let (p, known, allowed) =
        check_review-allowed (Commands.approve_review_decision a actor comment) previous h in
      review-permits previous p ReviewStatus.approved known allowed
  validator_of-permits (reject_review a actor comment) previous h =
      let (p, known, allowed) =
        check_review-allowed (Commands.reject_review_decision a actor comment) previous h in
      review-permits previous p ReviewStatus.rejected known allowed
  validator_of-permits (activate_publication a actor revision supersedes reason) previous h =
      let (p, known, allowed) =
        check_publication-allowed
          (Commands.activate_publication_decision a actor revision supersedes reason) previous h in
      publication-permits previous p PublicationStatus.active known allowed
  validator_of-permits (supersede_publication a by actor reason) previous h =
      let (p, known, allowed) =
        check_publication-allowed (Commands.supersede_publication_decision a by reason) previous
          h in
      publication-permits previous p PublicationStatus.superseded known allowed
  validator_of-permits (archive_publication a actor reason) previous h =
      let (p, known, allowed) =
        check_publication-allowed (Commands.archive_publication_decision a actor reason) previous
          h in
      publication-permits previous p PublicationStatus.archived known allowed
  validator_of-permits (resolve_resolution a actor comment) previous h =
      let (p, known, allowed) =
        check_resolution-allowed
          (Commands.resolution_command_decision a actor ResolutionStatus.resolved comment) previous
          h in
      resolution-permits previous p ResolutionStatus.resolved known allowed
  validator_of-permits (reject_resolution a actor comment) previous h =
      let (p, known, allowed) =
        check_resolution-allowed
          (Commands.resolution_command_decision a actor ResolutionStatus.rejected comment) previous
          h in
      resolution-permits previous p ResolutionStatus.rejected known allowed
  validator_of-permits (waive_resolution a actor comment) previous h =
      let (p, known, allowed) =
        check_resolution-allowed
          (Commands.resolution_command_decision a actor ResolutionStatus.waived comment) previous
          h in
      resolution-permits previous p ResolutionStatus.waived known allowed
