-- ===== src/Revisions/Source.antt =====
-- Where the projections read: `get_joint_revision` and `list_joint_revisions` of
-- backend/joints/service.py over the rows of the table `joint_revisions`.
use torq_pro.Prelude.{
  String, Bool, Option, none, some, List, ℤ, pos, negsuc, int_eq, ◌==◌, ltb, false, true, filter,
  find, Result, ok, err,
}
use torq_pro.Revisions.Sorting.{sorted}

-- The value of a column: a text, or anything else that SQLite may hold there.
pub data Field : Type 0 where
  text : String → Field
  other : Field

-- The columns of a row that this code reads.
pub record Row : Type 0 where
  pub id : ℤ
  pub joint_id : ℤ
  pub status : Field

-- `JointRevisionNotFoundError`, or any other exception of the read path.
pub data ReadError : Type 0 where
  not_found : ℤ → ReadError
  read_failure : ReadError

-- Python's `<` on int
unfoldable pub int_lt : ℤ → ℤ → Bool
int_lt (pos a) (pos b) = ltb a b
int_lt (negsuc a) (negsuc b) = ltb b a
int_lt (negsuc a) (pos b) = true
int_lt (pos a) (negsuc b) = false

-- The table as a statement reads it; `none` is a connection or a statement that raises.
unfoldable pub get_joint_revision : Option (List Row) → ℤ → Result ReadError Row
unfolding find
get_joint_revision none revision_id = err ReadError.read_failure
get_joint_revision (some rows) revision_id = elim (find (λ r. r.id == revision_id) rows) [
  | none ↦ err (ReadError.not_found revision_id)
  | some row ↦ ok row
]

-- `WHERE joint_id=?`, when there is one
unfoldable pub of_joint : Option ℤ → List Row → List Row
unfolding filter
of_joint none rows = rows
of_joint (some joint_id) rows = filter (λ r. r.joint_id == joint_id) rows

-- `ORDER BY id`
unfoldable pub list_joint_revisions : Option (List Row) → Option ℤ → Result ReadError (List Row)
unfolding of_joint sorted
list_joint_revisions none joint_id = err ReadError.read_failure
list_joint_revisions (some rows) joint_id =
    ok (sorted (λ r s. int_lt r.id s.id) (of_joint joint_id rows))
