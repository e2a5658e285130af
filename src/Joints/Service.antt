-- ===== src/Joints/Service.antt =====
-- The joint service (backend/joints/service.py), one function per operation. An operation reads in
-- one transaction and writes in another, so what other connections do between the two is an
-- argument, and so are the successive answers of `now_iso`.
use torq_pro.Prelude.{
  ℕ, String, ◌&&◌, not, Option, none, some, List, ◌==◌, string_eq, option_eq, nat_eq, eqb, find,
  filter, if◌then◌else◌, Result, ok, err, ◌>>=◌,
}
use torq_pro.Sqlite
use torq_pro.Sqlite.{fetch, update}
use torq_pro.Joints.Tables.{
  Joint, Revision, Detail, Db, JointError, joint_not_found, code_conflict, revision_not_found,
  revision_conflict, revision_state, integrity_error, joint_key, revision_key, has_id, is_some,
  insert_joint, audit,
}

-- What an operation returns: the row, or None where it is gone.
pub data Answer (M : Type 0) : Type 0 where
  joint : Option Joint → Answer M
  revision : Option (Revision M) → Answer M

abbrev pub World : Type 0 → Type 0
World M = Sqlite.World (Db M)

abbrev pub Reply : Type 0 → Type 0
Reply M = Result JointError (Answer M) × Db M

pub record JointRequest : Type 0 where
  pub project_id : ℕ
  pub joint_code : String
  pub name : String
  pub description : Option String
  pub created_by : Option ℕ

pub record RevisionRequest (M : Type 0) : Type 0 where
  pub joint_id : ℕ
  pub snapshot : Option M
  pub change_summary : Option String
  pub created_by : Option ℕ
  pub idempotency_key : Option String

unfoldable pub new_joint : JointRequest → String → ℕ → Joint
new_joint r ts id = record {
  id = id;
  project_id = r.project_id;
  joint_code = r.joint_code;
  name = r.name;
  description = r.description;
  status = "draft";
  current_revision_id = none;
  created_by = r.created_by;
  created_at = ts;
  updated_at = some ts;
  archived_at = none;
}

unfoldable pub set_archived : String → String → Joint → Joint
set_archived archived_at updated_at row = record row {
  status = "archived";
  archived_at = some archived_at;
  updated_at = some updated_at;
}

unfoldable pub set_current : ℕ → String → Joint → Joint
set_current revision_id ts row = record row {
  current_revision_id = some revision_id;
  status = "active";
  updated_at = some ts;
}

module _ {M : Type 0} where
  unfoldable pub get_joint : ℕ → Db M → Result JointError Joint
  unfolding fetch
  get_joint joint_id db = elim (fetch joint_id db.joints) [
    | none ↦ err (joint_not_found joint_id)
    | some row ↦ ok row
  ]

  unfoldable pub get_joint_revision : ℕ → Db M → Result JointError (Revision M)
  unfolding fetch
  get_joint_revision revision_id db = elim (fetch revision_id db.revisions) [
    | none ↦ err (revision_not_found revision_id)
    | some row ↦ ok row
  ]

  -- `ORDER BY id` is the order of the table.
  unfoldable pub list_joints : Option ℕ → Db M → List Joint
  unfolding filter
  list_joints none db = db.joints
  list_joints (some project_id) db = filter (λ j. eqb j.project_id project_id) db.joints

  unfoldable pub list_joint_revisions : Option ℕ → Db M → List (Revision M)
  unfolding filter
  list_joint_revisions none db = db.revisions
  list_joint_revisions (some joint_id) db = filter (λ r. eqb r.joint_id joint_id) db.revisions

  joint_inserted : World M → JointRequest → Option (Joint × Db M) → Db M → Reply M
  unfolding audit
  joint_inserted w r none db = (err integrity_error, db)
  joint_inserted w r (some (row, db')) db = (
    ok (Answer.joint (some row)),
    audit r.created_by "joint_create" (Detail.code r.joint_code) (w.now 1) db',
  )

  unfoldable pub create_joint : World M → JointRequest → Db M → Reply M
  unfolding find insert_joint new_joint joint_inserted
  create_joint w r db =
      if not (has_id r.project_id db.projects)
      then (err (joint_not_found r.project_id), db)
      else if is_some
          (find (λ j. eqb j.project_id r.project_id && (j.joint_code == r.joint_code)) db.joints)
      then (err (code_conflict r.joint_code r.project_id), db)
      else joint_inserted w r (insert_joint (new_joint r (w.now 0)) (w.gap 0 db)) (w.gap 0 db)

  unfoldable pub archive_joint : World M → ℕ → Option ℕ → Db M → Reply M
  unfolding get_joint update set_archived fetch audit
  archive_joint w joint_id actor_id db = elim (get_joint joint_id db) [
    | err e ↦ (err e, db)
    | ok row ↦
        if row.status == "archived"
        then (ok (Answer.joint (some row)), db)
        else let before = w.gap 0 db in
          let after = record before {
            joints = update joint_id (set_archived (w.now 0) (w.now 1)) before.joints;
          } in
          (
            ok (Answer.joint (fetch joint_id after.joints)),
            audit actor_id "joint_archive" (Detail.row_id joint_id) (w.now 2) after,
          )
  ]

  -- an update of one revision after the checks passed
  revised : ℕ → (Revision M → Revision M) → Db M → Db M
  unfolding update
  revised revision_id f db = record db { revisions = update revision_id f db.revisions }

  answered : ℕ → Option ℕ → String → String → Db M → Reply M
  unfolding fetch audit
  answered revision_id actor_id action ts db = (
    ok (Answer.revision (fetch revision_id db.revisions)),
    audit actor_id action (Detail.row_id revision_id) ts db,
  )

  unfoldable pub set_submitted : String → Revision M → Revision M
  set_submitted ts row = record row { status = "review"; submitted_at = some ts }

  unfoldable pub submit_joint_revision : World M → ℕ → Option ℕ → Db M → Reply M
  unfolding get_joint_revision revised answered set_submitted
  submit_joint_revision w revision_id actor_id db = elim (get_joint_revision revision_id db) [
    | err e ↦ (err e, db)
    | ok rev ↦
        if rev.status == "draft"
        then answered revision_id actor_id "joint_revision_submit" (w.now 1)
            (revised revision_id (set_submitted (w.now 0)) (w.gap 0 db))
        else (err (revision_state "only a draft revision can be submitted"), db)
  ]

  unfoldable pub set_approved : Option ℕ → String → Revision M → Revision M
  set_approved actor_id ts row = record row {
    status = "approved";
    reviewed_by = actor_id;
    reviewed_at = some ts;
    approved_at = some ts;
  }

  made_current : ℕ → ℕ → String → Db M → Db M
  unfolding update set_current
  made_current joint_id revision_id ts db = record db {
    joints = update joint_id (set_current revision_id ts) db.joints;
  }

  unfoldable pub approve_joint_revision : World M → ℕ → Option ℕ → Db M → Reply M
  unfolding get_joint_revision revised made_current answered set_approved
  approve_joint_revision w revision_id actor_id db = elim (get_joint_revision revision_id db) [
    | err e ↦ (err e, db)
    | ok rev ↦
        if not (rev.status == "review")
        then (err (revision_state "only a revision under review can be approved"), db)
        else if rev.created_by == actor_id
        then (err (revision_state "a reviewer cannot approve their own revision"), db)
        else answered revision_id actor_id "joint_revision_approve" (w.now 1) (
            made_current rev.joint_id revision_id (w.now 0)
              (revised revision_id (set_approved actor_id (w.now 0)) (w.gap 0 db)))
  ]

  unfoldable pub set_rejected : Option ℕ → String → Revision M → Revision M
  set_rejected actor_id ts row = record row {
    status = "rejected";
    reviewed_by = actor_id;
    reviewed_at = some ts;
  }

  unfoldable pub reject_joint_revision : World M → ℕ → Option ℕ → Db M → Reply M
  unfolding get_joint_revision revised answered set_rejected
  reject_joint_revision w revision_id actor_id db = elim (get_joint_revision revision_id db) [
    | err e ↦ (err e, db)
    | ok rev ↦
        if not (rev.status == "review")
        then (err (revision_state "only a revision under review can be rejected"), db)
        else if rev.created_by == actor_id
        then (err (revision_state "a reviewer cannot reject their own revision"), db)
        else answered revision_id actor_id "joint_revision_reject" (w.now 1)
            (revised revision_id (set_rejected actor_id (w.now 0)) (w.gap 0 db))
  ]

  unfoldable pub assert_revision_belongs_to_joint : ℕ → ℕ → Db M → Result JointError (Unit {0})
  unfolding get_joint_revision
  assert_revision_belongs_to_joint joint_revision_id joint_id db =
      get_joint_revision joint_revision_id db >>= λ rev.
      if eqb rev.joint_id joint_id
      then ok tt
      else err (revision_conflict "does not belong to joint")
