-- ===== src/Governance/Service/Permits.antt =====
-- The transition tables over the texts that events hold, and how far along its lifecycle a status
-- is.
use torq_pro.Prelude.{ℕ, ◌+◌, String, ◌≡◌, ◌≤◌, Bool, true, false, Option, some, arith}
use torq_pro.Governance.Enums.{
  ReviewStatus, PublicationStatus, ResolutionStatus, LifecycleGroup, review_of, publication_of,
  resolution_of, review_eq, publication_eq, resolution_eq, review_transitions,
  publication_transitions, resolution_transitions,
}
use torq_pro.Governance.Transitions.{is_transition_allowed}

abbrev permits_review : Option ReviewStatus → Option ReviewStatus → Bool
unfolding is_transition_allowed review_transitions
permits_review (some p) (some n) = is_transition_allowed review_transitions p n
permits_review _ _ = false

abbrev permits_publication : Option PublicationStatus → Option PublicationStatus → Bool
unfolding is_transition_allowed publication_transitions
permits_publication (some p) (some n) = is_transition_allowed publication_transitions p n
permits_publication _ _ = false

abbrev permits_resolution : Option ResolutionStatus → Option ResolutionStatus → Bool
unfolding is_transition_allowed resolution_transitions
permits_resolution (some p) (some n) = is_transition_allowed resolution_transitions p n
permits_resolution _ _ = false

-- The table of the group has the move from one text to the other.
unfoldable pub permits : LifecycleGroup → String → String → Bool
unfolding permits_review permits_publication permits_resolution
permits LifecycleGroup.review p n = permits_review (review_of p) (review_of n)
permits LifecycleGroup.publication p n = permits_publication (publication_of p) (publication_of n)
permits LifecycleGroup.resolution p n = permits_resolution (resolution_of p) (resolution_of n)

abbrev rank_review : Option ReviewStatus → ℕ
rank_review (some ReviewStatus.under_review) = 1
rank_review (some ReviewStatus.approved) = 2
rank_review (some ReviewStatus.rejected) = 2
rank_review _ = 0

abbrev rank_publication : Option PublicationStatus → ℕ
rank_publication (some PublicationStatus.active) = 1
rank_publication (some PublicationStatus.superseded) = 2
rank_publication (some PublicationStatus.archived) = 2
rank_publication _ = 0

abbrev rank_resolution : Option ResolutionStatus → ℕ
rank_resolution (some ResolutionStatus.resolved) = 1
rank_resolution (some ResolutionStatus.rejected) = 1
rank_resolution (some ResolutionStatus.waived) = 1
rank_resolution _ = 0

-- The number of transitions from the initial status.
unfoldable pub rank : LifecycleGroup → String → ℕ
rank LifecycleGroup.review s = rank_review (review_of s)
rank LifecycleGroup.publication s = rank_publication (publication_of s)
rank LifecycleGroup.resolution s = rank_resolution (resolution_of s)

-- The rank of the terminal statuses.
abbrev pub last_rank : LifecycleGroup → ℕ
last_rank LifecycleGroup.review = 2
last_rank LifecycleGroup.publication = 2
last_rank LifecycleGroup.resolution = 1

permits-rank_review :
    (p n : Option ReviewStatus) → permits_review p n ≡ true → rank_review n ≡ rank_review p + 1
unfolding permits_review
permits-rank_review p n h = ground arith

permits-rank_publication :
    (p n : Option PublicationStatus)
    → permits_publication p n ≡ true
    → rank_publication n ≡ rank_publication p + 1
unfolding permits_publication
permits-rank_publication p n h = ground arith

permits-rank_resolution :
    (p n : Option ResolutionStatus)
    → permits_resolution p n ≡ true
    → rank_resolution n ≡ rank_resolution p + 1
unfolding permits_resolution
permits-rank_resolution p n h = ground arith

-- Every permitted move is one step further.
pub permits-rank :
    (g : LifecycleGroup) (p n : String) → permits g p n ≡ true → rank g n ≡ rank g p + 1
unfolding permits rank
permits-rank LifecycleGroup.review p n h = permits-rank_review (review_of p) (review_of n) h
permits-rank LifecycleGroup.publication p n h =
    permits-rank_publication (publication_of p) (publication_of n) h
permits-rank LifecycleGroup.resolution p n h =
    permits-rank_resolution (resolution_of p) (resolution_of n) h

pub rank-le-last_rank : (g : LifecycleGroup) (s : String) → rank g s ≤ last_rank g
unfolding rank
rank-le-last_rank LifecycleGroup.review s = ground arith
rank-le-last_rank LifecycleGroup.publication s = ground arith
rank-le-last_rank LifecycleGroup.resolution s = ground arith
