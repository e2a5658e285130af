-- ===== src/Governance/Api/Statuses.antt =====
-- Every exception of a command on a sound store is one that `_run_command` turns into an HTTP
-- status.
use torq_pro.Prelude.{
  String, ◌≡◌, refl, subst, Bool, true, false, Option, none, some, List, arith, ok, err, ◌>>=◌, inl,
  inr, Bool-cases,
}
use torq_pro.Governance.Enums.{
  LifecycleGroup, ReviewStatus, PublicationStatus, ResolutionStatus, review_of, publication_of,
  resolution_of, review_value, publication_value, resolution_value, review_transitions,
  publication_transitions, resolution_transitions, review_eq, publication_eq, resolution_eq,
}
use torq_pro.Governance.Errors.{GovernanceError, Outcome}
use torq_pro.Governance.Transitions.{validate_transition}
use torq_pro.Governance.Events.{Event}
use torq_pro.Governance.Decisions.{
  ReviewDecision, PublicationDecision, ResolutionDecision, review_decision, publication_decision,
  resolution_decision, validate_review_decision, validate_publication_decision,
  validate_resolution_decision, validate_required_fields, Dump, required_for,
  review_required_fields, publication_required_fields, resolution_required_fields, review_dump,
  publication_dump, resolution_dump,
}
use torq_pro.Governance.Service.{initial_status, status_after}
use torq_pro.Governance.Service.Permits.{permits}
use torq_pro.Governance.Service.Plan.{history, status_on}
use torq_pro.Governance.Service.Log.{Log, start, grow, concerns, status_on-snoc}
use torq_pro.Governance.Service.Log.Histories.{concerns-eq}
use torq_pro.Governance.Commands
use torq_pro.Governance.Api.{
  Command, submit_review, approve_review, reject_review, activate_publication,
  supersede_publication, archive_publication, resolve_resolution, reject_resolution,
  waive_resolution, http_status,
}
use torq_pro.Governance.Api.Engine.{transition_of, validator_of}

-- `_run_command` has an `except` clause for the exception.
abbrev pub is_caught : GovernanceError → Bool
unfolding http_status
is_caught x = elim (http_status x) [ none ↦ false | some _ ↦ true ]

abbrev is_some {ℓ} : {A : Type ℓ} → Option A → Bool
is_some none = false
is_some (some _) = true

-- The text is a value of the group's enum.
pub parses : LifecycleGroup → String → Bool
parses LifecycleGroup.review s = is_some (review_of s)
parses LifecycleGroup.publication s = is_some (publication_of s)
parses LifecycleGroup.resolution s = is_some (resolution_of s)

parses-initial : (g : LifecycleGroup) → parses g (initial_status g) ≡ true
unfolding parses initial_status review_of publication_of resolution_of
parses-initial LifecycleGroup.review = refl
parses-initial LifecycleGroup.publication = refl
parses-initial LifecycleGroup.resolution = refl

permits-parses : (g : LifecycleGroup) (p n : String) → permits g p n ≡ true → parses g n ≡ true
unfolding permits parses
permits-parses LifecycleGroup.review p n h = ground arith
permits-parses LifecycleGroup.publication p n h = ground arith
permits-parses LifecycleGroup.resolution p n h = ground arith

module _ {M : Type 0} where
  -- Effective statuses are values of their group's enum.
  pub status_on-parses :
      (a : String) (g : LifecycleGroup) (events : List (Event M))
      → Log events
      → parses g (status_on a g events) ≡ true
  status_on-parses a g events (start e) =
      rw e (unfold status_on history status_after in parses-initial g)
  status_on-parses a g events (grow before e log f same) =
      rw (same, status_on-snoc a g before e)
        (elim (Bool-cases (concerns a g e)) [
          | inl c ↦ rw c (
              subst (λ x. parses x e.new_status ≡ true) (concerns-eq a g e c).1
                (permits-parses e.lifecycle_group e.previous_status e.new_status f.permitted))
          | inr c ↦ rw c (status_on-parses a g before log)
        ])

-- If the call raises, its exception is caught.
abbrev pub Caught : {A : Type 0} → Outcome A → Type 0
Caught r = (x : GovernanceError) → r ≡ err x → is_caught x ≡ true

pub bind-Caught :
    {A B : Type 0} (m : Outcome A) (f : A → Outcome B)
    → Caught m
    → ((a : A) → m ≡ ok a → Caught (f a))
    → Caught (m >>= f)
bind-Caught (ok a) f km kf = kf a refl
bind-Caught (err y) f km kf = λ x h. km x (cc)

validate_required_fields-Caught :
    (required : List String) (dump : Dump) (name : String)
    → Caught (validate_required_fields required dump name)
unfolding validate_required_fields is_caught
validate_required_fields-Caught required dump name x h = ground arith

review_decision-Caught : (d : ReviewDecision) → Caught (review_decision d)
unfolding review_decision is_caught
review_decision-Caught d x h = ground arith

validate_review_decision-Caught : (d : ReviewDecision) → Caught (validate_review_decision d)
unfolding validate_review_decision is_caught
validate_review_decision-Caught d =
    bind-Caught
      (validate_transition review_value review_transitions d.previous_status d.new_status "review")
      _ (λ x h. ground arith)
      λ _ _.
        validate_required_fields-Caught
          (required_for review_required_fields d.previous_status d.new_status) (review_dump d)
          "review"

parse_review-ok :
    (s : String) → parses LifecycleGroup.review s ≡ true → Caught (Commands.parse_review s)
unfolding Commands.parse_review parses is_caught
parse_review-ok s p x h = ground arith

check_review-Caught :
    (build : ReviewStatus → ReviewDecision) (s : String)
    → parses LifecycleGroup.review s ≡ true
    → Caught (Commands.check_review build s)
unfolding Commands.check_review
check_review-Caught build s p =
    bind-Caught (Commands.parse_review s) _ (parse_review-ok s p) λ status _.
      bind-Caught (review_decision (build status)) _ (review_decision-Caught (build status))
        λ d _. validate_review_decision-Caught d

publication_decision-Caught : (d : PublicationDecision) → Caught (publication_decision d)
unfolding publication_decision is_caught
publication_decision-Caught d x h = ground arith

validate_publication_decision-Caught :
    (d : PublicationDecision) → Caught (validate_publication_decision d)
unfolding validate_publication_decision is_caught
validate_publication_decision-Caught d =
    bind-Caught
      (validate_transition publication_value publication_transitions d.previous_status d.new_status
        "publication")
      _ (λ x h. ground arith)
      λ _ _.
        validate_required_fields-Caught
          (required_for publication_required_fields d.previous_status d.new_status)
          (publication_dump d) "publication"

parse_publication-ok :
    (s : String)
    → parses LifecycleGroup.publication s ≡ true
    → Caught (Commands.parse_publication s)
unfolding Commands.parse_publication parses is_caught
parse_publication-ok s p x h = ground arith

check_publication-Caught :
    (build : PublicationStatus → PublicationDecision) (s : String)
    → parses LifecycleGroup.publication s ≡ true
    → Caught (Commands.check_publication build s)
unfolding Commands.check_publication
check_publication-Caught build s p =
    bind-Caught (Commands.parse_publication s) _ (parse_publication-ok s p) λ status _.
      bind-Caught (publication_decision (build status)) _
        (publication_decision-Caught (build status)) λ d _. validate_publication_decision-Caught d

resolution_decision-Caught : (d : ResolutionDecision) → Caught (resolution_decision d)
unfolding resolution_decision is_caught
resolution_decision-Caught d x h = ground arith

validate_resolution_decision-Caught :
    (d : ResolutionDecision) → Caught (validate_resolution_decision d)
unfolding validate_resolution_decision is_caught
validate_resolution_decision-Caught d =
    bind-Caught
      (validate_transition resolution_value resolution_transitions d.previous_status d.new_status
        "resolution")
      _ (λ x h. ground arith)
      λ _ _.
        validate_required_fields-Caught
          (required_for resolution_required_fields d.previous_status d.new_status)
          (resolution_dump d) "resolution"

parse_resolution-ok :
    (s : String) → parses LifecycleGroup.resolution s ≡ true → Caught (Commands.parse_resolution s)
unfolding Commands.parse_resolution parses is_caught
parse_resolution-ok s p x h = ground arith

check_resolution-Caught :
    (build : ResolutionStatus → ResolutionDecision) (s : String)
    → parses LifecycleGroup.resolution s ≡ true
    → Caught (Commands.check_resolution build s)
unfolding Commands.check_resolution
check_resolution-Caught build s p =
    bind-Caught (Commands.parse_resolution s) _ (parse_resolution-ok s p) λ status _.
      bind-Caught (resolution_decision (build status)) _ (resolution_decision-Caught (build status))
        λ d _. validate_resolution_decision-Caught d

module _ {M : Type 0} where
  -- On a status of its group's enum a closure raises only what is caught.
  pub validator_of-Caught :
      (c : Command M) (s : String)
      → parses (transition_of c).lifecycle_group s ≡ true
      → Caught (validator_of c s)
  unfolding validator_of transition_of
  validator_of-Caught (submit_review a actor reason) s p =
      check_review-Caught (Commands.submit_review_decision a actor reason) s p
  validator_of-Caught (approve_review a actor comment) s p =
      check_review-Caught (Commands.approve_review_decision a actor comment) s p
  validator_of-Caught (reject_review a actor comment) s p =
      check_review-Caught (Commands.reject_review_decision a actor comment) s p
  validator_of-Caught (activate_publication a actor revision supersedes reason) s p =
      check_publication-Caught
        (Commands.activate_publication_decision a actor revision supersedes reason) s p
  validator_of-Caught (supersede_publication a by actor reason) s p =
      check_publication-Caught (Commands.supersede_publication_decision a by reason) s p
  validator_of-Caught (archive_publication a actor reason) s p =
      check_publication-Caught (Commands.archive_publication_decision a actor reason) s p
  validator_of-Caught (resolve_resolution a actor comment) s p =
      check_resolution-Caught
        (Commands.resolution_command_decision a actor ResolutionStatus.resolved comment) s p
  validator_of-Caught (reject_resolution a actor comment) s p =
      check_resolution-Caught
        (Commands.resolution_command_decision a actor ResolutionStatus.rejected comment) s p
  validator_of-Caught (waive_resolution a actor comment) s p =
      check_resolution-Caught
        (Commands.resolution_command_decision a actor ResolutionStatus.waived comment) s p
