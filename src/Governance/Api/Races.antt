-- ===== src/Governance/Api/Races.antt =====
-- The checks of a command are made outside the lock that `append` takes: what two overlapping
-- commands on one lifecycle write.
use torq_pro.Prelude.{
  String, ◌≡◌, ◌≢◌, refl, sym, ◌∙◌, ap, subst, true, List, [], ◌∷◌, ◌++◌, arith, ok, snoc-injective,
}
use torq_pro.Governance.Enums.{group_eq}
use torq_pro.Governance.Events.{Metadata, Event}
use torq_pro.Governance.Contract.{EventStore}
use torq_pro.Governance.Service.{new_event, decide, finish}
use torq_pro.Governance.Service.Permits.{rank}
use torq_pro.Governance.Service.Plan.{status_on, decide-plan}
use torq_pro.Governance.Service.Outcomes.{IsNew, plan-Explained, stamp}
use torq_pro.Governance.Service.Log.{Follows, Log, start, grow, concerns, status_on-snoc}
use torq_pro.Governance.Service.Log.Histories.{rank-step, concerns-of_eq}
use torq_pro.Governance.Api.{Command}
use torq_pro.Governance.Api.Engine.{transition_of, validator_of}
use torq_pro.Governance.Api.Runs.{IsNew-Follows}

module _ {M : Type 0} where
  -- The last event of a history that the engine explains follows the events before it.
  Log-last :
      (events l : List (Event M)) (e : Event M) → Log l → l ≡ events ++ e ∷ [] → Follows events e
  Log-last events l e (start empty) h = absurd (not-nil events e (sym empty ∙ h))
    where
      not-nil : (xs : List (Event M)) (x : Event M) → [] ≢ xs ++ x ∷ []
      not-nil [] x = λ p. cc
      not-nil (y ∷ ys) x = λ p. cc
  Log-last events l e (grow before x log f same) h =
      let (same_before, same_event) = snoc-injective before events x e (sym same ∙ h) in
      subst (λ y. Follows events y) same_event (subst (λ b. Follows b x) same_before f)

  -- Two events on one lifecycle that both follow the same history cannot be recorded in a row.
  not-Log :
      (events : List (Event M)) (e f : Event M)
      → Follows events e
      → Follows events f
      → concerns f.aggregate_id f.lifecycle_group e ≡ true
      → ¬ Log ((events ++ e ∷ []) ++ f ∷ [])
  not-Log events e f first second c log =
      let third = Log-last (events ++ e ∷ []) _ f log refl in
      let moved : f.previous_status ≡ e.new_status =
        third.continues ∙ status_on-snoc f.aggregate_id f.lifecycle_group events e ∙ rw c refl in
      omega (
        arith,
        ap (rank f.lifecycle_group) (sym second.continues ∙ moved),
        rank-step f.aggregate_id f.lifecycle_group events e first c,
      )

module _ {M : Type 0} ⦃meta : Metadata M⦄ (store : EventStore M) where
  open store use {State, append, all_events}

  -- Both commands have made their checks on the same store before either appends: the first appends,
  -- then the second.
  unfoldable pub overlapped : Command M → Command M → String → String → State → State
  overlapped c d fresh fresh' s =
      let planned_first = decide store (transition_of c) (validator_of c) fresh s in
      let planned_second = decide store (transition_of d) (validator_of d) fresh' s in
      (finish store planned_second (finish store planned_first s).1).1

  -- Two commands on one lifecycle that both pass their checks before either appends are both
  -- recorded, with the same previous status: the history is then none that the engine's rules allow.
  pub overlapped-not-Log :
      (c d : Command M) (fresh fresh' : String) (s : State) (events : List (Event M))
      (e f x y : Event M)
      → all_events s ≡ ok events
      → (transition_of c).aggregate_id ≡ (transition_of d).aggregate_id
      → (transition_of c).lifecycle_group ≡ (transition_of d).lifecycle_group
      → decide store (transition_of c) (validator_of c) fresh s ≡ ok (e, true)
      → decide store (transition_of d) (validator_of d) fresh' s ≡ ok (f, true)
      → (append e s).0 ≡ ok x
      → (append f (append e s).1).0 ≡ ok y
      → (all_events (overlapped c d fresh fresh' s) ≡ ok ((events ++ e ∷ []) ++ f ∷ []))
        × (e.previous_status ≡ f.previous_status)
        × ¬ Log ((events ++ e ∷ []) ++ f ∷ [])
  unfolding overlapped finish new_event
  overlapped-not-Log c d fresh fresh' s events e f x y h same_id same_group first second kept
        kept' =
      let new : IsNew (transition_of c) (validator_of c) fresh events e =
        plan-Explained (transition_of c) (validator_of c) fresh events (e, true)
          (sym (decide-plan store (transition_of c) (validator_of c) fresh s events h) ∙ first) in
      let new' : IsNew (transition_of d) (validator_of d) fresh' events f =
        plan-Explained (transition_of d) (validator_of d) fresh' events (f, true)
          (sym (decide-plan store (transition_of d) (validator_of d) fresh' s events h) ∙ second) in
      let t = transition_of c in
      let u = transition_of d in
      let e_id : e.aggregate_id ≡ f.aggregate_id =
        ap (λ v. v.aggregate_id) new.built ∙ same_id ∙ sym (ap (λ v. v.aggregate_id) new'.built) in
      let e_group : e.lifecycle_group ≡ f.lifecycle_group =
        ap (λ v. v.lifecycle_group) new.built
        ∙ same_group
        ∙ sym (ap (λ v. v.lifecycle_group) new'.built) in
      (
        ap all_events (λ i. (finish store (second i) (finish store (first i) s).1).1)
            ∙ (store.append-adds f (append e s).1 (events ++ e ∷ []) y
                (stamp u (validator_of d) fresh' events f new')
                (store.append-adds e s events x (stamp t (validator_of c) fresh events e new) h
                  kept)
                kept'),
        ap (λ v. v.previous_status) new.built
            ∙ ap (λ a. status_on a t.lifecycle_group events) same_id
            ∙ ap (λ g. status_on u.aggregate_id g events) same_group
            ∙ sym (ap (λ v. v.previous_status) new'.built),
        not-Log events e f (IsNew-Follows c fresh events e new)
            (IsNew-Follows d fresh' events f new')
            (concerns-of_eq f.aggregate_id f.lifecycle_group e e_id e_group),
      )
