-- ===== src/Revisions/Query/Trimming.antt =====
-- The search text of a query, up to the spaces around it (backend/governance/joint_revision_query.py).
use torq_pro.Prelude.{
  ◌≡◌, refl, ℕ, true, Option, some, List, ◌++◌, ℤ, all, inl, inr, string_eq, int_eq, option_eq,
  is_space, Result-cases,
}
use torq_pro.Revisions.Arguments.{Object, validate_sort_by, validate_sort_order}
use torq_pro.Revisions.Projection.{JointRevisionProjection}
use torq_pro.Revisions.Texts.{strip}
use torq_pro.Revisions.Texts.Spaces.{strip-surrounded}
use torq_pro.Revisions.Selection.{normalize_search}
use torq_pro.Revisions.Query.{query_all}

normalize_search-strip :
    (lower : List ℕ → List ℕ) (xs ys : List ℕ)
    → strip xs ≡ strip ys
    → normalize_search lower (some xs) ≡ normalize_search lower (some ys)
unfolding normalize_search
normalize_search-strip lower xs ys h = rw (normalize_search, h) refl

-- Spaces around a search text change no answer; so a blank text asks for everything.
pub query_all-surrounded :
    (lower : List ℕ → List ℕ) {S : Type 0} (read : Option ℤ → S → List JointRevisionProjection × S)
    (joint_id : Option ℤ) (before text after : List ℕ) (sort_by sort_order : Object) (s : S)
    → all is_space before ≡ true
    → all is_space after ≡ true
    → query_all lower read joint_id (some (before ++ (text ++ after))) sort_by sort_order s
      ≡ query_all lower read joint_id (some text) sort_by sort_order s
unfolding query_all
query_all-surrounded lower read joint_id before text after sort_by sort_order s h i =
    elim (Result-cases (validate_sort_by sort_by)) [
      | inr (e, j) ↦ rw (query_all, j) refl
      | inl (field, j) ↦ elim (Result-cases (validate_sort_order sort_order)) [
        | inr (e, k) ↦ rw (query_all, j, k) refl
        | inl (order, k) ↦
            rw (query_all, j, k)
              (rw (normalize_search-strip lower _ _ (strip-surrounded before text after h i)) refl)
      ]
    ]
