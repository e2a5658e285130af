-- ===== src/Revisions/Query/Bounds.antt =====
-- The bounds of what a query answers (backend/governance/joint_revision_query.py).
use torq_pro.Prelude.{
  ◌≡◌, ap, ◌∙◌, ℕ, ◌+◌, ◌-◌, ◌*◌, ◌≤◌, ◌<◌, Option, List, [], ℤ, pos, negsuc, length, arith, Result,
  ok, err, inl, inr, Result-cases, subst, ok-injective,
}
use native.Mathlib.Nat.{le_trans, mul-le-mul_right}
use torq_pro.Revisions.Arguments.{Object, ValidationError, validate_page, validate_page_size}
use torq_pro.Revisions.Projection.{JointRevisionProjection}
use torq_pro.Revisions.Pages.{QueryResult, paginate, take_items, drop_items, slice, ceil_div}
use torq_pro.Revisions.Pages.Slices.{
  take_items-nil, drop_items-all, length-take_items, ceil_div-covers,
}
use torq_pro.Revisions.Query.{query_all, query, paged}

-- The promise of an answer.
pub record IsBounded (r : QueryResult) : Type 0 where
  pub size_ge : 1 ≤ r.page_size
  pub size_le : r.page_size ≤ 200
  pub fits : length r.items ≤ r.page_size
  pub covers : r.total ≤ r.total_pages * r.page_size
  pub least : r.total_pages * r.page_size < r.total + r.page_size
  pub past : r.total_pages < r.page → r.items ≡ []

validate_page_size-inv : (o : Object) (n : ℕ) → validate_page_size o ≡ ok n → (1 ≤ n) × (n ≤ 200)
unfolding validate_page_size
validate_page_size-inv (Object.integer (pos m)) n h = ground arith
validate_page_size-inv (Object.integer (negsuc m)) n h = cc
validate_page_size-inv (Object.boolean b) n h = cc
validate_page_size-inv (Object.text s) n h = cc
validate_page_size-inv Object.other n h = cc

before_start :
    (pages page size total : ℕ) → pages < page → total ≤ pages * size → total ≤ (page - 1) * size
before_start pages page size total h i = le_trans i (mul-le-mul_right size (omega arith))

sub_start : (a b : ℕ) → a + b - a ≡ b
sub_start a b = omega arith

paginate-IsBounded :
    (xs : List JointRevisionProjection) (page page_size : ℕ)
    → 1 ≤ page_size
    → page_size ≤ 200
    → IsBounded (paginate xs page page_size)
unfolding paginate slice
paginate-IsBounded xs page page_size h i = record {
  size_ge = h;
  size_le = i;
  fits =
      subst
        (λ n. length (slice ((page - 1) * page_size) ((page - 1) * page_size + page_size) xs) ≤ n)
        (sub_start ((page - 1) * page_size) page_size)
        (length-take_items _ (drop_items ((page - 1) * page_size) xs));
  covers = (ceil_div-covers (length xs) page_size h).0;
  least = (ceil_div-covers (length xs) page_size h).1;
  past = λ beyond.
      ap (take_items ((page - 1) * page_size + page_size - (page - 1) * page_size)) (
        drop_items-all ((page - 1) * page_size) xs (
          before_start (ceil_div (length xs) page_size) page page_size (length xs) beyond
            (ceil_div-covers (length xs) page_size h).0))
      ∙ take_items-nil _;
}

module _ (lower : List ℕ → List ℕ) {S : Type 0}
    (read : Option ℤ → S → List JointRevisionProjection × S) where
  paged-IsBounded :
      (page page_size : ℕ) (all : Result ValidationError (List JointRevisionProjection) × S)
      (r : QueryResult)
      → 1 ≤ page_size
      → page_size ≤ 200
      → (paged lower read page page_size all).0 ≡ ok r
      → IsBounded r
  paged-IsBounded page page_size (err e, s) r h i eq = cc
  paged-IsBounded page page_size (ok xs, s) r h i eq =
      subst IsBounded (ok-injective eq) (paginate-IsBounded xs page page_size h i)

  -- Every answer of a query has a page size from 1 to 200, no more items than that, the least number
  -- of pages that holds the total, and no items on a page past the last.
  pub query-IsBounded :
      (joint_id : Option ℤ) (search : Option (List ℕ)) (sort_by sort_order page page_size : Object)
      (s : S) (r : QueryResult)
      → (query lower read joint_id search sort_by sort_order page page_size s).0 ≡ ok r
      → IsBounded r
  unfolding query
  query-IsBounded joint_id search sort_by sort_order page page_size s r h =
      elim (Result-cases (validate_page page)) [
        | inr (e, i) ↦ cc (rw (query, i) at h)
        | inl (n, i) ↦ elim (Result-cases (validate_page_size page_size)) [
          | inr (e, j) ↦ cc (rw (query, i, j) at h)
          | inl (size, j) ↦
              let (low, high) = validate_page_size-inv page_size size j in
              paged-IsBounded n size (query_all lower read joint_id search sort_by sort_order s) r
                low high (rw (query, i, j) at h)
        ]
      ]
