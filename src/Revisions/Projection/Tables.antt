-- ===== src/Revisions/Projection/Tables.antt =====
-- The bulk projection of a table that stays as it is during the call
-- (backend/governance/adapters/joint_revision.py over backend/joints/service.py).
use torq_pro.Prelude.{
  Ordered, All-map, ◌≡◌, refl, ap, Bool, true, false, Option, none, some, List, [], ◌∷◌, map, ℤ,
  filter, find, All, inl, inr, Bool-cases, ◌==◌, string_eq, int_eq, option_eq, Result, ok, err,
  matches_refl,
}
use torq_pro.Revisions.Sorting.{sorted, All-sorted}
use torq_pro.Revisions.Source.{
  Row, ReadError, int_lt, get_joint_revision, list_joint_revisions, of_joint,
}
use torq_pro.Revisions.Projection.{
  JointService, project_status, project_read, project_joint_revision, project_joint_revisions_bulk,
}

as_read : Result ReadError Row → Result ReadError (Option Row)
as_read (ok row) = ok (some row)
as_read (err e) = err e

-- The module over a table; `none` is a database that cannot be read.
unfoldable pub table_service : Option (List Row) → JointService
unfolding as_read get_joint_revision list_joint_revisions
table_service table = record {
  importable = true;
  get_joint_revision = λ revision_id. as_read (get_joint_revision table revision_id);
  list_joint_revisions = list_joint_revisions table;
}

-- Ids as a primary key keeps them.
abbrev pub IsKeyed : List Row → Type 0
IsKeyed rows = Ordered (λ r s. (r.id == s.id) ≡ false) rows

-- The row is the one read under its id.
abbrev pub Found : List Row → Row → Type 0
Found rows r = find (λ x. x.id == r.id) rows ≡ some r

Found-later :
    (x : Row) (xs ys : List Row)
    → All (λ r. (x.id == r.id) ≡ false) ys
    → All (Found xs) ys
    → All (Found (x ∷ xs)) ys
unfolding find
Found-later x xs [] h f = tt
Found-later x xs (y ∷ ys) h f = (rw h.0 f.0, Found-later x xs ys h.1 f.1)

Found-all : (rows : List Row) → IsKeyed rows → All (Found rows) rows
unfolding find
Found-all [] h = tt
Found-all (x ∷ xs) h = (rw (matches_refl x.id) refl, Found-later x xs xs h.0 (Found-all xs h.1))

module _ {ℓ} {A : Type ℓ} where
  filter-All {κ} : (P : A → Type κ) (p : A → Bool) (xs : List A) → All P xs → All P (filter p xs)
  unfolding filter
  filter-All P p [] h = tt
  filter-All P p (x ∷ xs) h = elim (Bool-cases (p x)) [
    | inl e ↦ rw e (h.0, filter-All P p xs h.1)
    | inr e ↦ rw e (filter-All P p xs h.1)
  ]

  map-All {κ} :
      {B : Type κ} (f g : A → B) (xs : List A) → All (λ x. f x ≡ g x) xs → map f xs ≡ map g xs
  map-All f g [] h = refl
  map-All f g (x ∷ xs) h = cc (h.0, map-All f g xs h.1)

of_joint-Found :
    (rows : List Row) (joint_id : Option ℤ)
    → IsKeyed rows
    → All (Found rows) (of_joint joint_id rows)
unfolding of_joint
of_joint-Found rows none h = Found-all rows h
of_joint-Found rows (some j) h =
    filter-All (Found rows) (λ r. r.joint_id == j) rows (Found-all rows h)

Found-read :
    (rows : List Row) (r : Row)
    → Found rows r
    → as_read (get_joint_revision (some rows) r.id) ≡ ok (some r)
unfolding get_joint_revision as_read
Found-read rows r h = rw (get_joint_revision, h) refl

pub Found-project :
    (rows : List Row) (r : Row)
    → Found rows r
    → project_joint_revision (table_service (some rows)) r.id ≡ project_status r.id r.status
unfolding table_service project_joint_revision project_read
Found-project rows r h = ap (project_read r.id) (Found-read rows r h)

-- On a table whose ids differ, the bulk projection is the projection of each row of the joint by its
-- own status, in ascending order of the ids.
pub bulk-table :
    (rows : List Row) (joint_id : Option ℤ)
    → IsKeyed rows
    → project_joint_revisions_bulk (table_service (some rows)) joint_id
      ≡ map
          (λ r. project_status r.id r.status)
          (sorted (λ r s. int_lt r.id s.id) (of_joint joint_id rows))
unfolding project_joint_revisions_bulk table_service list_joint_revisions
bulk-table rows joint_id h =
    map-All (λ r. project_joint_revision (table_service (some rows)) r.id)
      (λ r. project_status r.id r.status)
      (sorted (λ r s. int_lt r.id s.id) (of_joint joint_id rows))
      (All-sorted (λ r s. int_lt r.id s.id) _ (of_joint joint_id rows)
        (All-map (Found rows) _ (Found-project rows) (of_joint joint_id rows)
          (of_joint-Found rows joint_id h)))
