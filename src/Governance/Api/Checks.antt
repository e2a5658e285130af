-- ===== src/Governance/Api/Checks.antt =====
-- The check of a decision and the group's transition table.
use torq_pro.Prelude.{
  String, ◌≡◌, refl, true, some, arith, inl, inr, ok, ◌>>◌, Bool-cases, HasEq, bind-ok,
}
use torq_pro.Governance.Enums.{
  TransitionTable, ReviewStatus, PublicationStatus, ResolutionStatus, review_of, publication_of,
  resolution_of, review_value, publication_value, resolution_value, review_transitions,
  publication_transitions, resolution_transitions, review_eq, publication_eq, resolution_eq,
}
use torq_pro.Governance.Errors.{Outcome}
use torq_pro.Governance.Transitions.{is_transition_allowed, validate_transition}
use torq_pro.Governance.Decisions.{
  ReviewDecision, PublicationDecision, ResolutionDecision, review_decision, publication_decision,
  resolution_decision, validate_review_decision, validate_publication_decision,
  validate_resolution_decision,
}
use torq_pro.Governance.Commands

pub review_of-value : (s : ReviewStatus) → review_of (review_value s) ≡ some s
unfolding review_of review_value
review_of-value ReviewStatus.draft = refl
review_of-value ReviewStatus.under_review = refl
review_of-value ReviewStatus.approved = refl
review_of-value ReviewStatus.rejected = refl

pub publication_of-value : (s : PublicationStatus) → publication_of (publication_value s) ≡ some s
unfolding publication_of publication_value
publication_of-value PublicationStatus.draft = refl
publication_of-value PublicationStatus.active = refl
publication_of-value PublicationStatus.superseded = refl
publication_of-value PublicationStatus.archived = refl

pub resolution_of-value : (s : ResolutionStatus) → resolution_of (resolution_value s) ≡ some s
unfolding resolution_of resolution_value
resolution_of-value ResolutionStatus.open_issue = refl
resolution_of-value ResolutionStatus.resolved = refl
resolution_of-value ResolutionStatus.rejected = refl
resolution_of-value ResolutionStatus.waived = refl

validate_transition-allowed :
    {S : Type 0} ⦃e : HasEq S⦄ (value : S → String) (table : TransitionTable S) (p n : S)
    (name : String) (rest : Outcome (Unit {0}))
    → (validate_transition value table p n name >> rest) ≡ ok tt
    → is_transition_allowed table p n ≡ true
unfolding validate_transition
validate_transition-allowed value table p n name rest h =
    elim (Bool-cases (is_transition_allowed table p n)) [
      | inl yes_allowed ↦ yes_allowed
      | inr refused ↦ cc (rw refused at h)
    ]

-- The constructor returns the decision that it was given.
review_decision-same : (d e : ReviewDecision) → review_decision d ≡ ok e → d ≡ e
unfolding review_decision
review_decision-same d e h = ground arith

parse_review-ok :
    (s : String) (p : ReviewStatus) → Commands.parse_review s ≡ ok p → review_of s ≡ some p
unfolding Commands.parse_review
parse_review-ok s p h = ground arith

-- What a review closure accepts is in the table.
pub check_review-allowed :
    (build : ReviewStatus → ReviewDecision) (previous : String)
    → Commands.check_review build previous ≡ ok tt
    → (p : ReviewStatus) × (review_of previous ≡ some p)
      × (is_transition_allowed review_transitions (build p).previous_status (build p).new_status
          ≡ true)
unfolding Commands.check_review validate_review_decision
check_review-allowed build previous h =
    let (p, parsed, rest) = bind-ok (Commands.parse_review previous) _ tt h in
    let (d, built, valid) = bind-ok (review_decision (build p)) validate_review_decision tt rest in
    (
      p,
      parse_review-ok previous p parsed,
      rw (review_decision-same (build p) d built) (
          validate_transition-allowed review_value review_transitions d.previous_status d.new_status
            "review" _ valid),
    )

-- The constructor returns the decision that it was given.
publication_decision-same : (d e : PublicationDecision) → publication_decision d ≡ ok e → d ≡ e
unfolding publication_decision
publication_decision-same d e h = ground arith

parse_publication-ok :
    (s : String) (p : PublicationStatus)
    → Commands.parse_publication s ≡ ok p
    → publication_of s ≡ some p
unfolding Commands.parse_publication
parse_publication-ok s p h = ground arith

-- What a publication closure accepts is in the table.
pub check_publication-allowed :
    (build : PublicationStatus → PublicationDecision) (previous : String)
    → Commands.check_publication build previous ≡ ok tt
    → (p : PublicationStatus) × (publication_of previous ≡ some p)
      × (is_transition_allowed publication_transitions
            (build p).previous_status
            (build p).new_status
          ≡ true)
unfolding Commands.check_publication validate_publication_decision
check_publication-allowed build previous h =
    let (p, parsed, rest) = bind-ok (Commands.parse_publication previous) _ tt h in
    let (d, built, valid) =
      bind-ok (publication_decision (build p)) validate_publication_decision tt rest in
    (
      p,
      parse_publication-ok previous p parsed,
      rw (publication_decision-same (build p) d built) (
          validate_transition-allowed publication_value publication_transitions d.previous_status
            d.new_status "publication" _ valid),
    )

-- The constructor returns the decision that it was given.
resolution_decision-same : (d e : ResolutionDecision) → resolution_decision d ≡ ok e → d ≡ e
unfolding resolution_decision
resolution_decision-same d e h = ground arith

parse_resolution-ok :
    (s : String) (p : ResolutionStatus)
    → Commands.parse_resolution s ≡ ok p
    → resolution_of s ≡ some p
unfolding Commands.parse_resolution
parse_resolution-ok s p h = ground arith

-- What a resolution closure accepts is in the table.
pub check_resolution-allowed :
    (build : ResolutionStatus → ResolutionDecision) (previous : String)
    → Commands.check_resolution build previous ≡ ok tt
    → (p : ResolutionStatus) × (resolution_of previous ≡ some p)
      × (is_transition_allowed resolution_transitions (build p).previous_status (build p).new_status
          ≡ true)
unfolding Commands.check_resolution validate_resolution_decision
check_resolution-allowed build previous h =
    let (p, parsed, rest) = bind-ok (Commands.parse_resolution previous) _ tt h in
    let (d, built, valid) =
      bind-ok (resolution_decision (build p)) validate_resolution_decision tt rest in
    (
      p,
      parse_resolution-ok previous p parsed,
      rw (resolution_decision-same (build p) d built) (
          validate_transition-allowed resolution_value resolution_transitions d.previous_status
            d.new_status "resolution" _ valid),
    )
