-- ===== src/Revisions/Query/Order.antt =====
-- What the unpaged query answers (backend/governance/joint_revision_query.py).
use torq_pro.Prelude.{
  Ordered, ◌≡◌, ap, subst, ◌∙◌, ℕ, String, true, Option, List, ℤ, arith, inl, inr, string_eq,
  int_eq, option_eq, ok, Result-cases, ok-injective,
}
use mathlib.Core.List.{Permᴰ}
use torq_pro.Revisions.Arguments.{Object, validate_sort_by, validate_sort_order}
use torq_pro.Revisions.Projection.{JointRevisionProjection}
use torq_pro.Revisions.Selection.{normalize_search, searched, sorted_projections}
use torq_pro.Revisions.Selection.Order.{query_order, sorted_projections-Ordered}
use torq_pro.Revisions.Query.{query_all}

validate_sort_by-inv :
    (name field : String) → validate_sort_by (Object.text name) ≡ ok field → name ≡ field
unfolding validate_sort_by
validate_sort_by-inv name field h = ground (arith, h)

validate_sort_order-inv :
    (name order : String) → validate_sort_order (Object.text name) ≡ ok order → name ≡ order
unfolding validate_sort_order
validate_sort_order-inv name order h = ground (arith, h)

module _ (lower : List ℕ → List ℕ) {S : Type 0}
    (read : Option ℤ → S → List JointRevisionProjection × S) where
  -- What the query reads and searches.
  abbrev pub selected : Option ℤ → Option (List ℕ) → S → List JointRevisionProjection
  selected joint_id search s = searched lower (normalize_search lower search) (read joint_id s).0

  -- An answer holds the projections that were read and that the search keeps, each as often, in the
  -- documented order.
  pub query_all-Ordered :
      (joint_id : Option ℤ) (search : Option (List ℕ)) (sort_by sort_order : String) (s : S)
      (xs : List JointRevisionProjection)
      → (query_all lower read joint_id search (Object.text sort_by) (Object.text sort_order) s).0
        ≡ ok xs
      → Permᴰ xs (selected joint_id search s)
        × Ordered (λ p q. query_order lower sort_by sort_order p q ≡ true) xs
  unfolding query_all
  query_all-Ordered joint_id search sort_by sort_order s xs h =
      elim (Result-cases (validate_sort_by (Object.text sort_by))) [
        | inr (e, i) ↦ cc (rw (query_all, i) at h)
        | inl (field, i) ↦ elim (Result-cases (validate_sort_order (Object.text sort_order))) [
          | inr (e, j) ↦ cc (rw (query_all, i, j) at h)
          | inl (order, j) ↦
              subst
                (λ ys.
                  Permᴰ ys (selected joint_id search s)
                  × Ordered (λ p q. query_order lower sort_by sort_order p q ≡ true) ys)
                (ap (λ f. sorted_projections lower (selected joint_id search s) f sort_order)
                    (validate_sort_by-inv sort_by field i)
                  ∙ ap (λ o. sorted_projections lower (selected joint_id search s) field o)
                      (validate_sort_order-inv sort_order order j)
                  ∙ ok-injective (rw (query_all, i, j) at h))
                (sorted_projections-Ordered lower sort_by sort_order (selected joint_id search s))
        ]
      ]
