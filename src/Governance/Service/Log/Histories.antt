-- ===== src/Governance/Service/Log/Histories.antt =====
-- A history that the engine writes is as long as its status is far along the lifecycle, and no event follows a terminal status.
use torq_pro.Prelude.{
  ◌+◌, ◌≤◌, String, ◌≡◌, refl, ◌∙◌, ap, sym, subst, true, false, List, [], ◌∷◌, arith, inl, inr,
  string_eq, length, length-append, Bool-cases,
}
use text.Mathlib.TextEquality.{eq_iff}
use torq_pro.Governance.Enums.{
  LifecycleGroup, group_eq, group_beq_iff, review_of, publication_of, resolution_of,
}
use torq_pro.Governance.Events.{Event}
use torq_pro.Governance.Service.{initial_status, status_after}
use torq_pro.Governance.Service.Permits.{permits, rank, last_rank, permits-rank, rank-le-last_rank}
use torq_pro.Governance.Service.Plan.{history, status_on}
use torq_pro.Governance.Service.Log.{
  Follows, Log, start, grow, concerns, history-snoc, status_on-snoc,
}

rank-initial : (g : LifecycleGroup) → rank g (initial_status g) ≡ 0
unfolding rank initial_status review_of publication_of resolution_of
rank-initial LifecycleGroup.review = refl
rank-initial LifecycleGroup.publication = refl
rank-initial LifecycleGroup.resolution = refl

module _ {M : Type 0} where
  pub concerns-eq :
      (a : String) (g : LifecycleGroup) (e : Event M)
      → concerns a g e ≡ true
      → (e.aggregate_id ≡ a) × (e.lifecycle_group ≡ g)
  concerns-eq a g e h = (
    (eq_iff e.aggregate_id a).0 (ground arith),
    (group_beq_iff e.lifecycle_group g).0 (ground arith),
  )

  pub concerns-of_eq :
      (a : String) (g : LifecycleGroup) (e : Event M)
      → e.aggregate_id ≡ a
      → e.lifecycle_group ≡ g
      → concerns a g e ≡ true
  concerns-of_eq a g e p q =
      ground (arith, (eq_iff e.aggregate_id a).1 p, (group_beq_iff e.lifecycle_group g).1 q)

  -- The move that an event makes is a step from the status of its own aggregate and group.
  pub rank-step :
      (a : String) (g : LifecycleGroup) (events : List (Event M)) (e : Event M)
      → Follows events e
      → concerns a g e ≡ true
      → rank g e.new_status ≡ rank g (status_on a g events) + 1
  rank-step a g events e f c =
      let (same_id, same_group) = concerns-eq a g e c in
      permits-rank g (status_on a g events) e.new_status (
        subst (λ x. permits x (status_on a g events) e.new_status ≡ true) same_group
          (subst (λ x. permits e.lifecycle_group x e.new_status ≡ true)
            (f.continues
              ∙ ap (λ x. status_on x e.lifecycle_group events) same_id
              ∙ ap (λ x. status_on a x events) same_group)
            f.permitted))

  pub length-history :
      (a : String) (g : LifecycleGroup) (events : List (Event M))
      → Log events
      → length (history a g events) ≡ rank g (status_on a g events)
  length-history a g events (start e) =
      rw e (unfold history status_on status_after in sym (rank-initial g))
  length-history a g events (grow before e log f same) =
      rw same (elim (Bool-cases (concerns a g e)) [
        | inl c ↦
            rw (history-snoc a g before e, status_on-snoc a g before e, c)
              (omega (
                arith,
                length-append (history a g before) (e ∷ []),
                length-history a g before log,
                rank-step a g before e f c,
              ))
        | inr c ↦
            rw (history-snoc a g before e, status_on-snoc a g before e, c)
              (length-history a g before log)
      ])

  -- An aggregate passes through a lifecycle at most once.
  pub history_bound :
      (a : String) (g : LifecycleGroup) (events : List (Event M))
      → Log events
      → length (history a g events) ≤ last_rank g
  history_bound a g events log =
      omega (arith, length-history a g events log, rank-le-last_rank g (status_on a g events))

  -- At a terminal status no event can follow.
  pub Follows-terminal :
      (a : String) (g : LifecycleGroup) (events : List (Event M)) (e : Event M)
      → Follows events e
      → rank g (status_on a g events) ≡ last_rank g
      → concerns a g e ≡ false
  Follows-terminal a g events e f top = elim (Bool-cases (concerns a g e)) [
    | inl c ↦ absurd (omega (arith, rank-step a g events e f c, rank-le-last_rank g e.new_status))
    | inr c ↦ c
  ]
