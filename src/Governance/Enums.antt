-- ===== src/Governance/Enums.antt =====
-- The three lifecycle vocabularies and their closed transition tables
-- (backend/governance/enums.py).
use torq_pro.Prelude.{
  ℕ, String, ◌≡◌, ◌↔◌, Option, none, some, List, [], ◌∷◌, arith, eqb, if◌then◌else◌, HasEq, ◌==◌,
  string_eq, true,
}

pub data ReviewStatus : Type 0 where
  draft under_review approved rejected : ReviewStatus

pub data PublicationStatus : Type 0 where
  draft active superseded archived : PublicationStatus

pub data ResolutionStatus : Type 0 where
  open_issue resolved rejected waived : ResolutionStatus

pub data LifecycleGroup : Type 0 where
  review publication resolution : LifecycleGroup

-- `.value` of each `str` enum
unfoldable pub review_value : ReviewStatus → String
review_value ReviewStatus.draft = "draft"
review_value ReviewStatus.under_review = "under_review"
review_value ReviewStatus.approved = "approved"
review_value ReviewStatus.rejected = "rejected"

unfoldable pub publication_value : PublicationStatus → String
publication_value PublicationStatus.draft = "draft"
publication_value PublicationStatus.active = "active"
publication_value PublicationStatus.superseded = "superseded"
publication_value PublicationStatus.archived = "archived"

unfoldable pub resolution_value : ResolutionStatus → String
resolution_value ResolutionStatus.open_issue = "open"
resolution_value ResolutionStatus.resolved = "resolved"
resolution_value ResolutionStatus.rejected = "rejected"
resolution_value ResolutionStatus.waived = "waived"

unfoldable pub group_value : LifecycleGroup → String
group_value LifecycleGroup.review = "review"
group_value LifecycleGroup.publication = "publication"
group_value LifecycleGroup.resolution = "resolution"

-- `ReviewStatus(text)`: `none` is the ValueError
unfoldable pub review_of : String → Option ReviewStatus
review_of s =
    if s == "draft"
    then some ReviewStatus.draft
    else if s == "under_review"
    then some ReviewStatus.under_review
    else if s == "approved"
    then some ReviewStatus.approved
    else if s == "rejected"
    then some ReviewStatus.rejected
    else none

unfoldable pub publication_of : String → Option PublicationStatus
publication_of s =
    if s == "draft"
    then some PublicationStatus.draft
    else if s == "active"
    then some PublicationStatus.active
    else if s == "superseded"
    then some PublicationStatus.superseded
    else if s == "archived"
    then some PublicationStatus.archived
    else none

unfoldable pub resolution_of : String → Option ResolutionStatus
resolution_of s =
    if s == "open"
    then some ResolutionStatus.open_issue
    else if s == "resolved"
    then some ResolutionStatus.resolved
    else if s == "rejected"
    then some ResolutionStatus.rejected
    else if s == "waived"
    then some ResolutionStatus.waived
    else none

abbrev pub review_ordinal : ReviewStatus → ℕ
review_ordinal ReviewStatus.draft = 0
review_ordinal ReviewStatus.under_review = 1
review_ordinal ReviewStatus.approved = 2
review_ordinal ReviewStatus.rejected = 3

abbrev pub publication_ordinal : PublicationStatus → ℕ
publication_ordinal PublicationStatus.draft = 0
publication_ordinal PublicationStatus.active = 1
publication_ordinal PublicationStatus.superseded = 2
publication_ordinal PublicationStatus.archived = 3

abbrev pub resolution_ordinal : ResolutionStatus → ℕ
resolution_ordinal ResolutionStatus.open_issue = 0
resolution_ordinal ResolutionStatus.resolved = 1
resolution_ordinal ResolutionStatus.rejected = 2
resolution_ordinal ResolutionStatus.waived = 3

abbrev pub group_ordinal : LifecycleGroup → ℕ
group_ordinal LifecycleGroup.review = 0
group_ordinal LifecycleGroup.publication = 1
group_ordinal LifecycleGroup.resolution = 2

pub review_beq_iff :
    (a b : ReviewStatus) → (eqb (review_ordinal a) (review_ordinal b) ≡ true) ↔ (a ≡ b)
review_beq_iff a b = (λ h. ground arith, λ h. ground arith)

pub publication_beq_iff :
    (a b : PublicationStatus)
    → (eqb (publication_ordinal a) (publication_ordinal b) ≡ true) ↔ (a ≡ b)
publication_beq_iff a b = (λ h. ground arith, λ h. ground arith)

pub resolution_beq_iff :
    (a b : ResolutionStatus) → (eqb (resolution_ordinal a) (resolution_ordinal b) ≡ true) ↔ (a ≡ b)
resolution_beq_iff a b = (λ h. ground arith, λ h. ground arith)

pub group_beq_iff :
    (a b : LifecycleGroup) → (eqb (group_ordinal a) (group_ordinal b) ≡ true) ↔ (a ≡ b)
group_beq_iff a b = (λ h. ground arith, λ h. ground arith)

instance abbrev pub review_eq : HasEq ReviewStatus
review_eq = record {
  matches = λ a b. eqb (review_ordinal a) (review_ordinal b);
  matches_iff = review_beq_iff;
}

instance abbrev pub publication_eq : HasEq PublicationStatus
publication_eq = record {
  matches = λ a b. eqb (publication_ordinal a) (publication_ordinal b);
  matches_iff = publication_beq_iff;
}

instance abbrev pub resolution_eq : HasEq ResolutionStatus
resolution_eq = record {
  matches = λ a b. eqb (resolution_ordinal a) (resolution_ordinal b);
  matches_iff = resolution_beq_iff;
}

instance abbrev pub group_eq : HasEq LifecycleGroup
group_eq = record {
  matches = λ a b. eqb (group_ordinal a) (group_ordinal b);
  matches_iff = group_beq_iff;
}

-- `Dict[StatusT, FrozenSet[StatusT]]`
abbrev pub TransitionTable : Type 0 → Type 0
TransitionTable S = List (S × List S)

unfoldable pub review_transitions : TransitionTable ReviewStatus
review_transitions =
    (ReviewStatus.draft, ReviewStatus.under_review ∷ [])
    ∷ (ReviewStatus.under_review, ReviewStatus.approved ∷ ReviewStatus.rejected ∷ [])
    ∷ []

unfoldable pub publication_transitions : TransitionTable PublicationStatus
publication_transitions =
    (PublicationStatus.draft, PublicationStatus.active ∷ [])
    ∷ (PublicationStatus.active, PublicationStatus.superseded ∷ PublicationStatus.archived ∷ [])
    ∷ []

unfoldable pub resolution_transitions : TransitionTable ResolutionStatus
resolution_transitions =
    (
      ResolutionStatus.open_issue,
      ResolutionStatus.resolved ∷ ResolutionStatus.rejected ∷ ResolutionStatus.waived ∷ [],
    )
    ∷ []

unfoldable pub review_terminal : List ReviewStatus
review_terminal = ReviewStatus.approved ∷ ReviewStatus.rejected ∷ []

unfoldable pub publication_terminal : List PublicationStatus
publication_terminal = PublicationStatus.superseded ∷ PublicationStatus.archived ∷ []

unfoldable pub resolution_terminal : List ResolutionStatus
resolution_terminal =
    ResolutionStatus.resolved ∷ ResolutionStatus.rejected ∷ ResolutionStatus.waived ∷ []
