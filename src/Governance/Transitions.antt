-- ===== src/Governance/Transitions.antt =====
-- Membership in a transition table (backend/governance/transitions.py), and the import-time
-- exhaustiveness check of backend/governance/enums.py.
use torq_pro.Prelude.{
  String, Bool, false, ◌||◌, List, [], ◌∷◌, HasEq, ◌==◌, contains, guard, filter, not, ◌&&◌,
  if◌then◌else◌,
}
use torq_pro.Governance.Enums.{TransitionTable}
use torq_pro.Governance.Errors.{invalid_transition, Outcome}

module _ {S : Type 0} ⦃e : HasEq S⦄ where
  -- `transitions.get(previous, frozenset())`
  unfoldable pub outgoing : TransitionTable S → S → List S
  outgoing [] previous = []
  outgoing ((from, targets) ∷ rest) previous =
      if from == previous then targets else outgoing rest previous

  unfoldable pub is_transition_allowed : TransitionTable S → S → S → Bool
  unfolding outgoing contains
  is_transition_allowed transitions previous new = contains new (outgoing transitions previous)

  -- `value` gives the texts that the exception's message shows.
  unfoldable pub validate_transition :
      (S → String) → TransitionTable S → S → S → String → Outcome (Unit {0})
  unfolding is_transition_allowed
  validate_transition value transitions previous new lifecycle_name =
      guard (is_transition_allowed transitions previous new)
        (invalid_transition lifecycle_name (value previous) (value new))

  -- `status in transitions`
  unfoldable pub has_entry : TransitionTable S → S → Bool
  has_entry [] status = false
  has_entry ((from, targets) ∷ rest) status = from == status || has_entry rest status

  -- the members that the assertion would report
  unfoldable pub unaccounted : List S → TransitionTable S → List S → List S
  unfolding has_entry contains filter
  unaccounted members transitions terminal =
      filter (λ status. not (has_entry transitions status) && not (contains status terminal))
        members
