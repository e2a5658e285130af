-- ===== src/Revisions/Query/Validation.antt =====
-- The arguments that a query accepts, and what it reads under others
-- (backend/governance/joint_revision_query.py).
use torq_pro.Prelude.{
  ◌≡◌, refl, ℕ, String, Bool, true, false, ◌&&◌, Option, none, some, List, ℤ, pos, negsuc,
  string_eq, leb, arith, contains, Result, ok, err,
}
use torq_pro.Revisions.Arguments.{
  Object, ValidationError, validate_page, validate_page_size, validate_sort_by, validate_sort_order,
  allowed_sort_fields, allowed_sort_orders,
}
use torq_pro.Revisions.Projection.{JointRevisionProjection}
use torq_pro.Revisions.Query.{query_all, query}

-- An int from `low` on, and up to `high` if there is one; a bool is no int.
unfoldable pub in_range : ℕ → Option ℕ → Object → Bool
in_range low none (Object.integer (pos n)) = leb low n
in_range low (some high) (Object.integer (pos n)) = leb low n && leb n high
in_range low high _ = false

unfoldable pub one_of : List String → Object → Bool
unfolding contains
one_of names (Object.text name) = contains name names
one_of names _ = false

-- The outcome of a call that may raise, without its value.
abbrev pub succeeds {ℓ} : {A : Type ℓ} → Result ValidationError A → Bool
succeeds (ok a) = true
succeeds (err e) = false

validate_page-in_range : (o : Object) → succeeds (validate_page o) ≡ in_range 1 none o
unfolding validate_page in_range
validate_page-in_range (Object.integer (pos n)) = ground arith
validate_page-in_range (Object.integer (negsuc n)) = refl
validate_page-in_range (Object.boolean b) = refl
validate_page-in_range (Object.text s) = refl
validate_page-in_range Object.other = refl

validate_page_size-in_range :
    (o : Object) → succeeds (validate_page_size o) ≡ in_range 1 (some 200) o
unfolding validate_page_size in_range
validate_page_size-in_range (Object.integer (pos n)) = ground arith
validate_page_size-in_range (Object.integer (negsuc n)) = refl
validate_page_size-in_range (Object.boolean b) = refl
validate_page_size-in_range (Object.text s) = refl
validate_page_size-in_range Object.other = refl

validate_sort_by-one_of :
    (o : Object) → succeeds (validate_sort_by o) ≡ one_of allowed_sort_fields o
unfolding validate_sort_by one_of
validate_sort_by-one_of (Object.text s) = ground arith
validate_sort_by-one_of (Object.integer n) = refl
validate_sort_by-one_of (Object.boolean b) = refl
validate_sort_by-one_of Object.other = refl

validate_sort_order-one_of :
    (o : Object) → succeeds (validate_sort_order o) ≡ one_of allowed_sort_orders o
unfolding validate_sort_order one_of
validate_sort_order-one_of (Object.text s) = ground arith
validate_sort_order-one_of (Object.integer n) = refl
validate_sort_order-one_of (Object.boolean b) = refl
validate_sort_order-one_of Object.other = refl

-- The arguments that the documentation allows.
unfoldable pub allows : Object → Object → Object → Object → Bool
unfolding in_range one_of allowed_sort_fields allowed_sort_orders
allows sort_by sort_order page page_size =
    in_range 1 none page
    && in_range 1 (some 200) page_size
    && one_of allowed_sort_fields sort_by
    && one_of allowed_sort_orders sort_order

module _ (lower : List ℕ → List ℕ) {S : Type 0}
    (read : Option ℤ → S → List JointRevisionProjection × S) where
  -- A query succeeds exactly if its page is an int of at least 1, its page size an int from 1 to
  -- 200, its sort field and its sort order ones of the allowed; if not it reads nothing.
  pub query-allows :
      (joint_id : Option ℤ) (search : Option (List ℕ)) (sort_by sort_order page page_size : Object)
      (s : S)
      → (succeeds (query lower read joint_id search sort_by sort_order page page_size s).0
          ≡ allows sort_by sort_order page page_size)
        × (allows sort_by sort_order page page_size ≡ false
            → (query lower read joint_id search sort_by sort_order page page_size s).1 ≡ s)
  unfolding query query_all allows
  query-allows joint_id search sort_by sort_order page page_size s = ground (
    arith,
    validate_page-in_range page,
    validate_page_size-in_range page_size,
    validate_sort_by-one_of sort_by,
    validate_sort_order-one_of sort_order,
  )
