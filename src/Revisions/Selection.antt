-- ===== src/Revisions/Selection.antt =====
-- The search and the order of projections (backend/governance/joint_revision_query.py). Texts are
-- compared and searched as lists of code points. `lower` is the interpreter's case table
-- (`str.lower`), a parameter.
pub mod Sorted
pub mod Order
use torq_pro.Prelude.{
  ◌≡◌, ℕ, zero, suc, ◌+◌, ◌-◌, ◌*◌, ◌/◌, ◌%◌, String, Bool, true, false, ◌&&◌, ◌||◌, not, Option,
  none, some, List, [], ◌∷◌, ◌++◌, map, ℤ, pos, negsuc, string_eq, ◌==◌, if◌then◌else◌, ltb, leb,
  eqb, length, filter, contains, codes, is_space, Result, ok, err, ◌>>=◌, guard, ◌>>◌,
}
use torq_pro.Revisions.Texts.{str, strip, is_in, text_lt}
use torq_pro.Revisions.Source.{int_lt}
use torq_pro.Revisions.Projection.{JointRevisionProjection}
use torq_pro.Revisions.Sorting.{sorted}

-- A field that is not None, as a text.
unfoldable pub known : Option String → List (List ℕ)
known none = []
known (some value) = codes value ∷ []

-- `_searchable_text`
unfoldable pub searchable_text : JointRevisionProjection → List (List ℕ)
unfolding known str
searchable_text p =
    str p.joint_revision_id ∷ known p.source_status
    ++ known p.canonical_status
    ++ codes p.outcome ∷ known p.safe_reason

-- `getattr(projection, sort_by)` for the allowed fields that are texts
unfoldable pub text_field : JointRevisionProjection → String → Option String
text_field p sort_by =
    if sort_by == "source_status"
    then p.source_status
    else if sort_by == "canonical_status"
    then p.canonical_status
    else some p.outcome

-- `<` of the values of `_sort_value`. Python has no order with None and compares none:
-- `_sorted_projections` takes those projections out before.
unfoldable pub value_lt : Option (List ℕ) → Option (List ℕ) → Bool
unfolding text_lt
value_lt (some a) (some b) = text_lt a b
value_lt none (some b) = true
value_lt _ none = false

abbrev pub is_some {ℓ} : {A : Type ℓ} → Option A → Bool
is_some none = false
is_some (some a) = true

abbrev pub id_before : Bool → JointRevisionProjection → JointRevisionProjection → Bool
id_before reverse p q =
    if reverse
    then int_lt q.joint_revision_id p.joint_revision_id
    else int_lt p.joint_revision_id q.joint_revision_id

module _ (lower : List ℕ → List ℕ) where
  unfoldable pub normalize_search : Option (List ℕ) → Option (List ℕ)
  unfolding strip
  normalize_search none = none
  normalize_search (some search) = elim (strip search) [
    | [] ↦ none
    | c ∷ cs ↦ some (lower (c ∷ cs))
  ]

  unfoldable pub any_contains : List ℕ → List (List ℕ) → Bool
  unfolding is_in
  any_contains part [] = false
  any_contains part (t ∷ ts) = is_in part (lower t) || any_contains part ts

  unfoldable pub matches_search : JointRevisionProjection → List ℕ → Bool
  unfolding searchable_text any_contains
  matches_search p normalized_search = any_contains normalized_search (searchable_text p)

  -- `_sort_value` for the text fields
  unfoldable pub sort_value : String → JointRevisionProjection → Option (List ℕ)
  unfolding text_field
  sort_value sort_by p = elim (text_field p sort_by) [
    | none ↦ none
    | some value ↦ some (lower (codes value))
  ]

  unfoldable pub value_before :
      String → Bool → JointRevisionProjection → JointRevisionProjection → Bool
  unfolding sort_value value_lt
  value_before sort_by reverse p q =
      if reverse
      then value_lt (sort_value sort_by q) (sort_value sort_by p)
      else value_lt (sort_value sort_by p) (sort_value sort_by q)

  unfoldable pub sorted_projections :
      List JointRevisionProjection → String → String → List JointRevisionProjection
  unfolding sorted filter sort_value value_before
  sorted_projections items sort_by sort_order =
      let reverse = sort_order == "desc" in
      let non_null = filter (λ p. is_some (sort_value sort_by p)) items in
      let null_items = filter (λ p. not (is_some (sort_value sort_by p))) items in
      if sort_by == "joint_revision_id"
      then sorted (id_before reverse) items
      else sorted (value_before sort_by reverse) (sorted (id_before false) non_null)
        ++ sorted (id_before false) null_items

  -- the filter of the query, when there is a search
  unfoldable pub searched :
      Option (List ℕ) → List JointRevisionProjection → List JointRevisionProjection
  unfolding filter matches_search
  searched none projections = projections
  searched (some normalized_search) projections =
      filter (λ p. matches_search p normalized_search) projections
