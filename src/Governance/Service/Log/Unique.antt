-- ===== src/Governance/Service/Log/Unique.antt =====
-- In a history that the engine writes, a decision id or a key finds the one event that has it.
use torq_pro.Prelude.{
  String, ◌≡◌, ◌≢◌, subst, none, some, List, [], ◌∷◌, ◌++◌, inl, inr, ◌⊎◌, if◌then◌else◌, ◌==◌,
  string_eq, Bool-cases, find-snoc, matches_refl,
}
use text.Mathlib.TextEquality.{eq_iff}
use torq_pro.Governance.Enums.{group_eq}
use torq_pro.Governance.Events.{Event, with_decision, with_key}
use torq_pro.Governance.Service.Plan.{known_key}
use torq_pro.Governance.Service.Log.{Log, start, grow}

module _ {M : Type 0} where
  -- membership, by cases
  abbrev pub In : Event M → List (Event M) → Type 0
  In e [] = ⊥
  In e (x ∷ xs) = (e ≡ x) ⊎ In e xs

  In-snoc : (e x : Event M) (xs : List (Event M)) → In e (xs ++ x ∷ []) → In e xs ⊎ (e ≡ x)
  In-snoc e x [] (inl h) = inr h
  In-snoc e x [] (inr h) = absurd h
  In-snoc e x (y ∷ ys) (inl h) = inl (inl h)
  In-snoc e x (y ∷ ys) (inr h) = elim (In-snoc e x ys h) [ inl i ↦ inl (inr i) | inr i ↦ inr i ]

  with_decision-snoc :
      (d : String) (events : List (Event M)) (e : Event M)
      → with_decision d (events ++ e ∷ []) ≡ elim (with_decision d events) [
        | some x ↦ some x
        | none ↦ if e.decision_id == d then some e else none
      ]
  unfolding with_decision
  with_decision-snoc d events e = find-snoc (λ x. x.decision_id == d) events e

  -- A decision id finds the one event that has it.
  pub with_decision-exact :
      (events : List (Event M)) (e : Event M)
      → Log events
      → In e events
      → with_decision e.decision_id events ≡ some e
  with_decision-exact events e (start l) i = absurd (subst (In e) l i)
  with_decision-exact events e (grow before x log f same) i =
      elim (In-snoc e x before (subst (In e) same i)) [
        | inl old ↦
            rw (
              same,
              with_decision-snoc e.decision_id before x,
              with_decision-exact before e log old,
            )
        | inr new ↦ rw (
          same,
          new,
          with_decision-snoc x.decision_id before x,
          f.fresh_decision,
          matches_refl x.decision_id,
        )
      ]

  pub known_key-snoc :
      (k : String) (events : List (Event M)) (e : Event M)
      → k ≢ ""
      → known_key k (events ++ e ∷ []) ≡ elim (known_key k events) [
        | some x ↦ some x
        | none ↦ if e.idempotency_key == k then some e else none
      ]
  unfolding known_key with_key
  known_key-snoc k events e ne = elim (Bool-cases (k == "")) [
    | inl is_empty ↦ absurd (ne ((eq_iff k "").0 is_empty))
    | inr filled ↦ rw filled (find-snoc (λ x. x.idempotency_key == k) events e)
  ]

  -- A key that is not empty finds the one event that has it.
  pub known_key-exact :
      (events : List (Event M)) (e : Event M)
      → Log events
      → In e events
      → e.idempotency_key ≢ ""
      → known_key e.idempotency_key events ≡ some e
  known_key-exact events e (start l) i ne = absurd (subst (In e) l i)
  known_key-exact events e (grow before x log f same) i ne =
      elim (In-snoc e x before (subst (In e) same i)) [
        | inl old ↦ rw (
          same,
          known_key-snoc e.idempotency_key before x ne,
          known_key-exact before e log old ne,
        )
        | inr new ↦ rw (
          same,
          new,
          known_key-snoc x.idempotency_key before x (subst (λ y. y.idempotency_key ≢ "") new ne),
          f.fresh_key,
          matches_refl x.idempotency_key,
        )
      ]
