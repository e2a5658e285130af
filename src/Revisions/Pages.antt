-- ===== src/Revisions/Pages.antt =====
-- The page that a query cuts out of its sorted list (the end of
-- `query_joint_revision_projections` of backend/governance/joint_revision_query.py).
pub mod Slices
use torq_pro.Prelude.{
  ◌≡◌, ℕ, zero, suc, ◌+◌, ◌-◌, ◌*◌, ◌/◌, ◌%◌, String, Bool, true, false, ◌&&◌, ◌||◌, not, Option,
  none, some, List, [], ◌∷◌, ◌++◌, map, ℤ, pos, negsuc, string_eq, ◌==◌, if◌then◌else◌, ltb, leb,
  eqb, length, filter, contains, codes, is_space, Result, ok, err, ◌>>=◌, guard, ◌>>◌,
}
use torq_pro.Revisions.Projection.{JointRevisionProjection}

-- What a query answers.
pub record QueryResult : Type 0 where
  pub items : List JointRevisionProjection
  pub total : ℕ
  pub page : ℕ
  pub page_size : ℕ
  pub total_pages : ℕ

-- `math.ceil(total / page_size) if total else 0`. The division is of floats, which round to the
-- same whole number as long as `total` is below 2 ** 45.
unfoldable pub ceil_div : ℕ → ℕ → ℕ
ceil_div total page_size = if eqb total 0 then 0 else (total + page_size - 1) / page_size

unfoldable pub take_items {ℓ} : {A : Type ℓ} → ℕ → List A → List A
take_items zero xs = []
take_items (suc n) [] = []
take_items (suc n) (x ∷ xs) = x ∷ take_items n xs

unfoldable pub drop_items {ℓ} : {A : Type ℓ} → ℕ → List A → List A
drop_items zero xs = xs
drop_items (suc n) [] = []
drop_items (suc n) (x ∷ xs) = drop_items n xs

-- `xs[start:end]` for bounds that are not negative
unfoldable pub slice {ℓ} : {A : Type ℓ} → ℕ → ℕ → List A → List A
unfolding take_items drop_items
slice start end xs = take_items (end - start) (drop_items start xs)

-- The end of `query_joint_revision_projections`; a validated page is at least 1.
unfoldable pub paginate : List JointRevisionProjection → ℕ → ℕ → QueryResult
unfolding ceil_div slice
paginate sorted_items page page_size =
    let total = length sorted_items in
    let start = (page - 1) * page_size in
    record {
      items = slice start (start + page_size) sorted_items;
      total = total;
      page = page;
      page_size = page_size;
      total_pages = ceil_div total page_size;
    }
