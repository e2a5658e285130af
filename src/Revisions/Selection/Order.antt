-- ===== src/Revisions/Selection/Order.antt =====
-- The order that a query documents, and the sort of projections
-- (backend/governance/joint_revision_query.py).
use torq_pro.Prelude.{
  Ordered, Ordered-map, Ordered-append, ◌≡◌, refl, ℕ, String, Bool, true, false, ◌&&◌, ◌||◌, not,
  Option, none, some, List, ℤ, arith, filter, All, inl, inr, Bool-cases, if◌then◌else◌, ◌==◌,
  string_eq, Bool-cases,
}
use mathlib.Core.List.{Permᴰ}
use mathlib.Core.List.Permᴰ
use torq_pro.Revisions.Sorting.{sorted, All-sorted, sorted-Permᴰ, stable, sorted-Ordered}
use torq_pro.Revisions.Source.{int_lt}
use torq_pro.Revisions.Texts.{text_lt}
use torq_pro.Revisions.Projection.{JointRevisionProjection}
use torq_pro.Revisions.Selection.{
  value_lt, is_some, id_before, sort_value, value_before, sorted_projections,
}
use torq_pro.Revisions.Selection.Sorted.{
  All-filter, partition-Permᴰ, All-cross, Ordered-any, All-any, int_lt-split, value_lt-split,
}

int_lt-asym : (a b : ℤ) → int_lt a b ≡ true → int_lt b a ≡ false
unfolding int_lt
int_lt-asym a b h = ground arith

id_before-split :
    (reverse : Bool) (p q r : JointRevisionProjection)
    → id_before reverse p r ≡ true
    → id_before reverse p q || id_before reverse q r ≡ true
id_before-split true p q r h =
    ground (arith, int_lt-split r.joint_revision_id q.joint_revision_id p.joint_revision_id)
id_before-split false p q r h =
    int_lt-split p.joint_revision_id q.joint_revision_id r.joint_revision_id h

id_before-last :
    (reverse : Bool) (p q : JointRevisionProjection)
    → stable (id_before reverse) (λ a b. true) p q ≡ true
    → not (id_before reverse q p) ≡ true
id_before-last true p q h = ground (arith, int_lt-asym q.joint_revision_id p.joint_revision_id)
id_before-last false p q h = ground (arith, int_lt-asym p.joint_revision_id q.joint_revision_id)

-- The order by id, in either direction.
unfoldable pub id_order : Bool → JointRevisionProjection → JointRevisionProjection → Bool
id_order reverse p q = not (id_before reverse q p)

pub sorted-id_order :
    (reverse : Bool) (xs : List JointRevisionProjection)
    → Ordered (λ p q. id_order reverse p q ≡ true) (sorted (id_before reverse) xs)
unfolding id_order
sorted-id_order reverse xs =
    Ordered-map (λ p. Unit {0}) (λ p q. stable (id_before reverse) (λ a b. true) p q ≡ true)
      (λ p q. id_order reverse p q ≡ true) (λ p q _ _ h. id_before-last reverse p q h)
      (sorted (id_before reverse) xs) (All-any (sorted (id_before reverse) xs))
      (sorted-Ordered (id_before reverse) (λ a b. true) (id_before-split reverse) xs
        (Ordered-any xs))

-- The order by a text field: what has no value comes last, equal values by ascending id.
unfoldable pub value_order : Bool → Option (List ℕ) → Option (List ℕ) → Bool → Bool
unfolding text_lt
value_order reverse none none ids = ids
value_order reverse none (some b) ids = false
value_order reverse (some a) none ids = true
value_order true (some a) (some b) ids = text_lt b a || (not (text_lt a b) && ids)
value_order false (some a) (some b) ids = text_lt a b || (not (text_lt b a) && ids)

module _ (lower : List ℕ → List ℕ) (sort_by : String) where
  abbrev value : JointRevisionProjection → Option (List ℕ)
  value = sort_value lower sort_by

  -- The order that the query documents.
  unfoldable pub query_order : String → JointRevisionProjection → JointRevisionProjection → Bool
  unfolding id_order value_order sort_value
  query_order sort_order p q =
      if sort_by == "joint_revision_id"
      then id_order (sort_order == "desc") p q
      else value_order (sort_order == "desc") (value p) (value q) (id_order false p q)

  value_before-split :
      (reverse : Bool) (p q r : JointRevisionProjection)
      → value_before lower sort_by reverse p r ≡ true
      → value_before lower sort_by reverse p q || value_before lower sort_by reverse q r ≡ true
  unfolding value_before
  value_before-split true p q r h = ground (arith, value_lt-split (value r) (value q) (value p))
  value_before-split false p q r h = value_lt-split (value p) (value q) (value r) h

  value_order-known :
      (reverse : Bool) (v w : Option (List ℕ)) (ids : Bool)
      → is_some v ≡ true
      → is_some w ≡ true
      → (if reverse then value_lt w v else value_lt v w)
          || (not (if reverse then value_lt v w else value_lt w v) && ids)
        ≡ true
      → value_order reverse v w ids ≡ true
  unfolding value_order value_lt
  value_order-known true (some a) (some b) ids h i e = e
  value_order-known false (some a) (some b) ids h i e = e
  value_order-known reverse none w ids h i e = cc
  value_order-known reverse (some a) none ids h i e = cc

  value_order-unknown :
      (reverse : Bool) (v w : Option (List ℕ)) (ids : Bool)
      → not (is_some w) ≡ true
      → is_some v || ids ≡ true
      → value_order reverse v w ids ≡ true
  unfolding value_order
  value_order-unknown reverse none none ids h i = i
  value_order-unknown reverse (some a) none ids h i = refl
  value_order-unknown reverse v (some b) ids h i = cc

  stable-value_order :
      (reverse : Bool) (p q : JointRevisionProjection)
      → is_some (value p) ≡ true
      → is_some (value q) ≡ true
      → stable (value_before lower sort_by reverse) (id_order false) p q ≡ true
      → value_order reverse (value p) (value q) (id_order false p q) ≡ true
  unfolding value_before
  stable-value_order true p q h i e =
      value_order-known true (value p) (value q) (id_order false p q) h i e
  stable-value_order false p q h i e =
      value_order-known false (value p) (value q) (id_order false p q) h i e

  -- Projections with a value, by value and then by id, then those without one, by id.
  value_sorted-Ordered :
      (reverse : Bool) (xs : List JointRevisionProjection)
      → All (λ p. is_some (value p) ≡ true) xs
      → Ordered
          (λ p q. value_order reverse (value p) (value q) (id_order false p q) ≡ true)
          (sorted (value_before lower sort_by reverse) (sorted (id_before false) xs))
  value_sorted-Ordered reverse xs h =
      let known =
        All-sorted (value_before lower sort_by reverse) (λ p. is_some (value p) ≡ true)
          (sorted (id_before false) xs)
          (All-sorted (id_before false) (λ p. is_some (value p) ≡ true) xs h) in
      Ordered-map (λ p. is_some (value p) ≡ true)
        (λ p q. stable (value_before lower sort_by reverse) (id_order false) p q ≡ true)
        (λ p q. value_order reverse (value p) (value q) (id_order false p q) ≡ true)
        (stable-value_order reverse)
        (sorted (value_before lower sort_by reverse) (sorted (id_before false) xs)) known
        (sorted-Ordered (value_before lower sort_by reverse) (id_order false)
          (value_before-split reverse) (sorted (id_before false) xs) (sorted-id_order false xs))

  null_sorted-Ordered :
      (reverse : Bool) (xs : List JointRevisionProjection)
      → All (λ p. not (is_some (value p)) ≡ true) xs
      → Ordered
          (λ p q. value_order reverse (value p) (value q) (id_order false p q) ≡ true)
          (sorted (id_before false) xs)
  null_sorted-Ordered reverse xs h =
      Ordered-map (λ p. not (is_some (value p)) ≡ true) (λ p q. id_order false p q ≡ true)
        (λ p q. value_order reverse (value p) (value q) (id_order false p q) ≡ true)
        (λ p q i j e.
          value_order-unknown reverse (value p) (value q) (id_order false p q) j
            (ground (arith, e)))
        (sorted (id_before false) xs)
        (All-sorted (id_before false) (λ p. not (is_some (value p)) ≡ true) xs h)
        (sorted-id_order false xs)

  -- The sort keeps every projection, and puts each pair in the documented order: by the field in the
  -- direction asked for, what has no value last in both, equal values by ascending id.
  pub sorted_projections-Ordered :
      (sort_order : String) (xs : List JointRevisionProjection)
      → Permᴰ (sorted_projections lower xs sort_by sort_order) xs
        × Ordered
            (λ p q. query_order sort_order p q ≡ true)
            (sorted_projections lower xs sort_by sort_order)
  unfolding sorted_projections query_order
  sorted_projections-Ordered sort_order xs = elim (Bool-cases (sort_by == "joint_revision_id")) [
    | inl e ↦ rw e (
      sorted-Permᴰ (id_before (sort_order == "desc")) xs,
      sorted-id_order (sort_order == "desc") xs,
    )
    | inr e ↦ rw e (
      Permᴰ.trans
          (Permᴰ.trans
            (Permᴰ.append_right _ (
              Permᴰ.trans (sorted-Permᴰ (value_before lower sort_by (sort_order == "desc")) _)
                (sorted-Permᴰ (id_before false) (filter (λ p. is_some (value p)) xs))))
            (Permᴰ.append_left _
              (sorted-Permᴰ (id_before false) (filter (λ p. not (is_some (value p))) xs))))
          (partition-Permᴰ (λ p. is_some (value p)) xs),
      Ordered-append
          (λ p q.
            value_order (sort_order == "desc") (value p) (value q) (id_order false p q) ≡ true)
          _ _
          (value_sorted-Ordered (sort_order == "desc") (filter (λ p. is_some (value p)) xs)
            (All-filter (λ p. is_some (value p)) xs))
          (null_sorted-Ordered (sort_order == "desc") (filter (λ p. not (is_some (value p))) xs)
            (All-filter (λ p. not (is_some (value p))) xs))
          (All-cross (λ p. is_some (value p) ≡ true) (λ p. not (is_some (value p)) ≡ true)
            (λ p q.
              value_order (sort_order == "desc") (value p) (value q) (id_order false p q) ≡ true)
            (λ p q i j.
              value_order-unknown (sort_order == "desc") (value p) (value q) (id_order false p q) j
                (ground (arith, i)))
            _ _
            (All-sorted (value_before lower sort_by (sort_order == "desc")) _ _
              (All-sorted (id_before false) _ _ (All-filter (λ p. is_some (value p)) xs)))
            (All-sorted (id_before false) _ _ (All-filter (λ p. not (is_some (value p))) xs))),
    )
  ]
