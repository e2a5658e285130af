-- ===== src/Revisions/Arguments.antt =====
-- The validation of a query's arguments (backend/governance/joint_revision_query.py).
use torq_pro.Prelude.{
  ℕ, String, Bool, List, [], ◌∷◌, ℤ, pos, negsuc, string_eq, if◌then◌else◌, ltb, contains, Result,
  ok, err,
}

abbrev pub default_sort_by : String
default_sort_by = "joint_revision_id"

abbrev pub default_sort_order : String
default_sort_order = "asc"

abbrev pub max_page_size : ℕ
max_page_size = 200

unfoldable pub allowed_sort_fields : List String
allowed_sort_fields = "joint_revision_id" ∷ "source_status" ∷ "canonical_status" ∷ "outcome" ∷ []

unfoldable pub allowed_sort_orders : List String
allowed_sort_orders = "asc" ∷ "desc" ∷ []

-- An argument as Python passes it: the parameters' annotations are not enforced.
pub data Object : Type 0 where
  integer : ℤ → Object
  boolean : Bool → Object
  text : String → Object
  other : Object

-- `JointRevisionQueryValidationError`
pub record ValidationError : Type 0 where
  pub parameter : String
  pub value : Object
  pub reason : String

abbrev invalid {ℓ} : {A : Type ℓ} → String → Object → String → Result ValidationError A
invalid parameter value reason =
    err (record { parameter = parameter; value = value; reason = reason })

-- `_validate_page`: what it returns is at least 1, so a natural number.
unfoldable pub validate_page : Object → Result ValidationError ℕ
validate_page (Object.integer (pos page)) =
    if ltb page 1 then invalid "page" (Object.integer (pos page)) "must be >= 1" else ok page
validate_page (Object.integer (negsuc n)) =
    invalid "page" (Object.integer (negsuc n)) "must be >= 1"
validate_page page = invalid "page" page "must be an integer"

unfoldable pub validate_page_size : Object → Result ValidationError ℕ
validate_page_size (Object.integer (pos page_size)) =
    if ltb page_size 1
    then invalid "page_size" (Object.integer (pos page_size)) "must be >= 1"
    else if ltb max_page_size page_size
    then invalid "page_size" (Object.integer (pos page_size)) "must be <= 200"
    else ok page_size
validate_page_size (Object.integer (negsuc n)) =
    invalid "page_size" (Object.integer (negsuc n)) "must be >= 1"
validate_page_size page_size = invalid "page_size" page_size "must be an integer"

abbrev sort_by_reason : String
sort_by_reason =
    "must be one of ('joint_revision_id', 'source_status', 'canonical_status', 'outcome')"

abbrev sort_order_reason : String
sort_order_reason = "must be one of ('asc', 'desc')"

unfoldable pub validate_sort_by : Object → Result ValidationError String
unfolding contains allowed_sort_fields
validate_sort_by (Object.text sort_by) =
    if contains sort_by allowed_sort_fields
    then ok sort_by
    else invalid "sort_by" (Object.text sort_by) sort_by_reason
validate_sort_by sort_by = invalid "sort_by" sort_by sort_by_reason

unfoldable pub validate_sort_order : Object → Result ValidationError String
unfolding contains allowed_sort_orders
validate_sort_order (Object.text sort_order) =
    if contains sort_order allowed_sort_orders
    then ok sort_order
    else invalid "sort_order" (Object.text sort_order) sort_order_reason
validate_sort_order sort_order = invalid "sort_order" sort_order sort_order_reason
