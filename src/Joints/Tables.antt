-- ===== src/Joints/Tables.antt =====
-- The tables that the joint service reads and writes (backend/joints/schema.py), its exceptions
-- (backend/joints/exceptions.py) and the audit log.
use torq_pro.Prelude.{
  ℕ, String, Bool, false, true, ◌&&◌, ◌||◌, not, Option, none, some, List, [], ◌∷◌, ◌++◌, ◌==◌,
  string_eq, option_eq, eqb, find, if◌then◌else◌,
}
use torq_pro.Sqlite.{HasKey, next_id, fetch}

pub record Joint : Type 0 where
  pub id : ℕ
  pub project_id : ℕ
  pub joint_code : String
  pub name : String
  pub description : Option String
  pub status : String
  pub current_revision_id : Option ℕ
  pub created_by : Option ℕ
  pub created_at : String
  pub updated_at : Option String
  pub archived_at : Option String

-- A row of `joint_revisions`; `snapshot_json` is kept as the dict that it is the JSON of.
pub record Revision (M : Type 0) : Type 0 where
  pub id : ℕ
  pub joint_id : ℕ
  pub revision_no : ℕ
  pub status : String
  pub snapshot : Option M
  pub change_summary : Option String
  pub created_by : Option ℕ
  pub created_at : String
  pub submitted_at : Option String
  pub reviewed_by : Option ℕ
  pub reviewed_at : Option String
  pub approved_at : Option String
  pub idempotency_key : Option String

-- The detail of an entry before it is formatted: a code, `str(id)`, or `joint=... rev=...`.
pub data Detail : Type 0 where
  code : String → Detail
  row_id : ℕ → Detail
  joint_rev : ℕ → ℕ → Detail

pub record AuditEntry : Type 0 where
  pub user_id : Option ℕ
  pub action : String
  pub detail : Detail
  pub created_at : String

-- The database; of the projects only the ids matter here. Its integers are 64-bit in SQLite: the
-- operations are on ids that sqlite3 can bind, and the routes refuse to go on with any other.
pub record Db (M : Type 0) : Type 0 where
  pub projects : List ℕ
  pub joints : List Joint
  pub revisions : List (Revision M)
  pub audit_log : List AuditEntry

pub data JointError : Type 0 where
  joint_not_found joint_archived : ℕ → JointError
  code_conflict : String → ℕ → JointError
  revision_not_found : ℕ → JointError
  revision_conflict : String → JointError
  revision_state : String → JointError
  -- `sqlite3.IntegrityError`, which is no JointError
  integrity_error : JointError

instance abbrev pub joint_key : HasKey Joint
joint_key = record { key = λ r. r.id }

instance abbrev pub revision_key : {M : Type 0} → HasKey (Revision M)
revision_key = record { key = λ r. r.id }

abbrev pub has_id : ℕ → List ℕ → Bool
has_id id [] = false
has_id id (x ∷ xs) = eqb x id || has_id id xs

abbrev pub is_some {ℓ} : {A : Type ℓ} → Option A → Bool
is_some none = false
is_some (some _) = true

-- `UNIQUE(project_id, joint_code)`
unfoldable pub joint_clash : Joint → Joint → Bool
joint_clash a b = eqb a.project_id b.project_id && (a.joint_code == b.joint_code)

module _ {M : Type 0} where
  -- `UNIQUE(joint_id, idempotency_key) WHERE idempotency_key IS NOT NULL`
  unfoldable pub key_clash : Revision M → Revision M → Bool
  key_clash a b =
      eqb a.joint_id b.joint_id
      && (is_some a.idempotency_key && (a.idempotency_key == b.idempotency_key))

  -- `UNIQUE(joint_id, revision_no)`
  unfoldable pub number_clash : Revision M → Revision M → Bool
  number_clash a b = eqb a.joint_id b.joint_id && eqb a.revision_no b.revision_no

  unfoldable pub revision_clash : Revision M → Revision M → Bool
  unfolding key_clash number_clash
  revision_clash a b = number_clash a b || key_clash a b

  -- `INSERT INTO joints`; `none` is an IntegrityError.
  unfoldable pub insert_joint : (ℕ → Joint) → Db M → Option (Joint × Db M)
  unfolding find next_id joint_clash
  insert_joint build db =
      let row = build (next_id db.joints) in
      if has_id row.project_id db.projects
        && not (is_some (find (λ old. joint_clash old row) db.joints))
      then some (row, record db { joints = db.joints ++ row ∷ [] })
      else none

  unfoldable pub insert_revision : (ℕ → Revision M) → Db M → Option (Revision M × Db M)
  unfolding find next_id fetch revision_clash
  insert_revision build db =
      let row = build (next_id db.revisions) in
      if is_some (fetch row.joint_id db.joints)
        && not (is_some (find (λ old. revision_clash old row) db.revisions))
      then some (row, record db { revisions = db.revisions ++ row ∷ [] })
      else none

  -- `audit` (backend/app.py)
  unfoldable pub audit : Option ℕ → String → Detail → String → Db M → Db M
  audit user_id action detail created_at db = record db {
    audit_log =
        db.audit_log
        ++ record { user_id = user_id; action = action; detail = detail; created_at = created_at }
          ∷ [];
  }
