-- ===== src/Revisions/Query/Paging.antt =====
-- The pages of a query together, and their bounds (backend/governance/joint_revision_query.py).
use torq_pro.Prelude.{
  ◌≡◌, ap, ◌∙◌, ℕ, zero, suc, ◌+◌, ◌-◌, ◌*◌, ◌≤◌, Option, List, [], ◌++◌, ℤ, pos, length, arith,
  Result, ok, err,
}
use torq_pro.Revisions.Arguments.{Object, ValidationError, validate_page, validate_page_size}
use torq_pro.Revisions.Projection.{JointRevisionProjection}
use torq_pro.Revisions.Pages.{QueryResult, paginate, take_items, drop_items, slice, ceil_div}
use torq_pro.Revisions.Pages.Slices.{take_items-add, take_items-all, ceil_div-covers}
use torq_pro.Revisions.Query.{query_all, query, paged}

-- The page as a list; a call that raises gives none.
abbrev pub items_of :
    {S : Type 0} → Result ValidationError QueryResult × S → List JointRevisionProjection
items_of (ok r, s) = r.items
items_of (err e, s) = []

suc_pred : (n : ℕ) → suc n - 1 ≡ n
suc_pred n = omega arith

suc_sub : (n m : ℕ) → (suc n - 1) * m ≡ n * m
suc_sub n m = ap (λ k. k * m) (suc_pred n)

sub_start : (a b : ℕ) → a + b - a ≡ b
sub_start a b = omega arith

zero_mul : (m : ℕ) → 0 ≡ 0 * m
zero_mul m = omega arith

suc_mul : (n m : ℕ) → n * m + m ≡ suc n * m
suc_mul n m = omega arith

validate_page-ok : (n : ℕ) → 1 ≤ n → validate_page (Object.integer (pos n)) ≡ ok n
unfolding validate_page
validate_page-ok n h = ground arith

validate_page_size-ok :
    (n : ℕ) → 1 ≤ n → n ≤ 200 → validate_page_size (Object.integer (pos n)) ≡ ok n
unfolding validate_page_size
validate_page_size-ok n h i = ground arith

module _ (lower : List ℕ → List ℕ) {S : Type 0}
    (read : Option ℤ → S → List JointRevisionProjection × S) (joint_id : Option ℤ)
    (search : Option (List ℕ)) (sort_by sort_order : Object) where
  abbrev pub query_page : ℕ → ℕ → S → Result ValidationError QueryResult × S
  query_page page page_size s =
      query lower read joint_id search sort_by sort_order (Object.integer (pos page))
        (Object.integer (pos page_size)) s

  -- The items of the pages 1 to `n`, one after the other, each asked for in the same state.
  unfoldable pub pages : ℕ → ℕ → S → List JointRevisionProjection
  pages zero page_size s = []
  pages (suc n) page_size s = pages n page_size s ++ items_of (query_page (suc n) page_size s)

  query_page-paginate :
      (page page_size : ℕ) (s : S)
      → 1 ≤ page
      → 1 ≤ page_size
      → page_size ≤ 200
      → query_page page page_size s
        ≡ paged lower read page page_size
            (query_all lower read joint_id search sort_by sort_order s)
  unfolding query
  query_page-paginate page page_size s h i j =
      rw (query, validate_page-ok page h, validate_page_size-ok page_size i j)

  items_of-paged :
      (page page_size : ℕ) (xs : List JointRevisionProjection)
      (r : Result ValidationError (List JointRevisionProjection) × S)
      → r.0 ≡ ok xs
      → items_of (paged lower read page page_size r) ≡ (paginate xs page page_size).items
  items_of-paged page page_size xs (ok ys, s) h = ap (λ r. (paginate r page page_size).items) (cc)
  items_of-paged page page_size xs (err e, s) h = cc

  items_of-paginate :
      (n page_size : ℕ) (xs : List JointRevisionProjection)
      → (paginate xs (suc n) page_size).items ≡ take_items page_size (drop_items (n * page_size) xs)
  unfolding paginate slice
  items_of-paginate n page_size xs =
      ap (λ start. slice start (start + page_size) xs) (suc_sub n page_size)
      ∙ ap (λ count. take_items count (drop_items (n * page_size) xs))
          (sub_start (n * page_size) page_size)

  pages-take_items :
      (n page_size : ℕ) (s : S) (xs : List JointRevisionProjection)
      → 1 ≤ page_size
      → page_size ≤ 200
      → (query_all lower read joint_id search sort_by sort_order s).0 ≡ ok xs
      → pages n page_size s ≡ take_items (n * page_size) xs
  unfolding pages take_items
  pages-take_items zero page_size s xs h i e = ap (λ k. take_items k xs) (zero_mul page_size)
  pages-take_items (suc n) page_size s xs h i e = cc (
    pages-take_items n page_size s xs h i e,
    query_page-paginate (suc n) page_size s (omega arith) h i,
    items_of-paged (suc n) page_size xs (query_all lower read joint_id search sort_by sort_order s)
        e,
    items_of-paginate n page_size xs,
    take_items-add (n * page_size) page_size xs,
    suc_mul n page_size,
  )

  -- If the unpaged query answers a list, its pages 1 to the number of pages are that list, for every
  -- page size from 1 to 200.
  pub pages-query_all :
      (page_size : ℕ) (s : S) (xs : List JointRevisionProjection)
      → 1 ≤ page_size
      → page_size ≤ 200
      → (query_all lower read joint_id search sort_by sort_order s).0 ≡ ok xs
      → pages (ceil_div (length xs) page_size) page_size s ≡ xs
  pages-query_all page_size s xs h i e =
      pages-take_items (ceil_div (length xs) page_size) page_size s xs h i e
      ∙ take_items-all (ceil_div (length xs) page_size * page_size) xs
          (ceil_div-covers (length xs) page_size h).0
