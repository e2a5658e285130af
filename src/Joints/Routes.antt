-- ===== src/Joints/Routes.antt =====
-- The routes of joints and their revisions (backend/api/routes/joints.py over
-- backend/joints/schemas.py). FastAPI validates the bodies before them, and `u["id"]` is the
-- signed-in user.
use torq_pro.Prelude.{ℕ, String, Option, none, some, List, Result, ok, err, if◌then◌else◌}
use torq_pro.Sqlite.{is_bindable}
use torq_pro.Governance.Events.{Metadata}
use torq_pro.Joints.Tables.{
  Joint, Revision, Db, JointError, joint_not_found, joint_archived, code_conflict,
  revision_not_found, revision_conflict, revision_state, integrity_error,
}
use torq_pro.Joints.Service
use torq_pro.Joints.Service.{World, Answer, JointRequest, RevisionRequest}
use torq_pro.Joints.Creation

pub record JointCreate : Type 0 where
  pub project_id : ℕ
  pub joint_code : String
  pub name : String
  pub description : Option String

pub record JointRevisionCreate (M : Type 0) : Type 0 where
  pub snapshot : M
  pub change_summary : Option String
  pub idempotency_key : Option String

-- The requests to the routes that write.
pub data Post (M : Type 0) : Type 0 where
  joint : JointCreate → Post M
  revision : ℕ → JointRevisionCreate M → Post M
  submit approve reject : ℕ → Post M

-- The id of the request.
unfoldable pub bound_id : {M : Type 0} → Post M → ℕ
bound_id (joint x) = x.project_id
bound_id (revision joint_id x) = joint_id
bound_id (submit revision_id) = revision_id
bound_id (approve revision_id) = revision_id
bound_id (reject revision_id) = revision_id

-- What the client gets: the value, an `HTTPException`, or the 500 of an exception that nothing
-- caught; `overflowed` is that of the OverflowError of sqlite3.
pub data Response (V : Type 0) : Type 0 where
  overflowed : Response V
  value : V → Response V
  refused : ℕ → JointError → Response V
  crashed : JointError → Response V

abbrev pub joint_request : ℕ → JointCreate → JointRequest
joint_request user x = record {
  project_id = x.project_id;
  joint_code = x.joint_code;
  name = x.name;
  description = x.description;
  created_by = some user;
}

abbrev pub revision_request : {M : Type 0} → ℕ → ℕ → JointRevisionCreate M → RevisionRequest M
revision_request user joint_id x = record {
  joint_id = joint_id;
  snapshot = some x.snapshot;
  change_summary = x.change_summary;
  created_by = some user;
  idempotency_key = x.idempotency_key;
}

module _ {V : Type 0} where
  unfoldable pub refusal : JointError → Response V
  refusal (joint_not_found i) = refused 404 (joint_not_found i)
  refusal (revision_not_found i) = refused 404 (revision_not_found i)
  refusal (revision_conflict s) = refused 409 (revision_conflict s)
  refusal (code_conflict s i) = refused 409 (code_conflict s i)
  refusal (joint_archived i) = refused 400 (joint_archived i)
  refusal (revision_state s) = refused 400 (revision_state s)
  refusal integrity_error = crashed integrity_error

  -- `_handle`
  unfoldable pub handle : Result JointError V → Response V
  unfolding refusal
  handle (ok v) = value v
  handle (err e) = refusal e

module _ {V S : Type 0} where
  -- The id of a request stands in the first statement of its operation, before any write.
  abbrev pub bound_first : ℕ → S → Response V × S → Response V × S
  bound_first id db rest = if is_bindable id then rest else (Response.overflowed, db)

module _ {V : Type 0} where
  abbrev pub bound_read : ℕ → Response V → Response V
  bound_read id rest = if is_bindable id then rest else Response.overflowed

module _ {M : Type 0} where
  abbrev pub handled : Result JointError (Answer M) × Db M → Response (Answer M) × Db M
  handled (result, db) = (handle result, db)

  unfoldable pub post_joint : World M → ℕ → JointCreate → Db M → Response (Answer M) × Db M
  unfolding Service.create_joint handle is_bindable
  post_joint w user x db =
      bound_first x.project_id db (handled (Service.create_joint w (joint_request user x) db))

  unfoldable pub get_joints : Option ℕ → Db M → Response (List Joint)
  unfolding Service.list_joints is_bindable
  get_joints none db = value (Service.list_joints none db)
  get_joints (some project_id) db =
      bound_read project_id (value (Service.list_joints (some project_id) db))

  unfoldable pub get_joint : ℕ → Db M → Response Joint
  unfolding Service.get_joint handle is_bindable
  get_joint joint_id db = bound_read joint_id (handle (Service.get_joint joint_id db))

  unfoldable pub get_joint_revision : ℕ → Db M → Response (Revision M)
  unfolding Service.get_joint_revision handle is_bindable
  get_joint_revision revision_id db =
      bound_read revision_id (handle (Service.get_joint_revision revision_id db))

  unfoldable pub post_submit : World M → ℕ → ℕ → Db M → Response (Answer M) × Db M
  unfolding Service.submit_joint_revision handle is_bindable
  post_submit w user revision_id db =
      bound_first revision_id db
        (handled (Service.submit_joint_revision w revision_id (some user) db))

  unfoldable pub post_approve : World M → ℕ → ℕ → Db M → Response (Answer M) × Db M
  unfolding Service.approve_joint_revision handle is_bindable
  post_approve w user revision_id db =
      bound_first revision_id db
        (handled (Service.approve_joint_revision w revision_id (some user) db))

  unfoldable pub post_reject : World M → ℕ → ℕ → Db M → Response (Answer M) × Db M
  unfolding Service.reject_joint_revision handle is_bindable
  post_reject w user revision_id db =
      bound_first revision_id db
        (handled (Service.reject_joint_revision w revision_id (some user) db))

module _ {M : Type 0} ⦃meta : Metadata M⦄ where
  unfoldable pub post_revision :
      World M → ℕ → ℕ → JointRevisionCreate M → Db M → Response (Answer M) × Db M
  unfolding Creation.create_joint_revision handle is_bindable
  post_revision w user joint_id x db =
      bound_first joint_id db
        (handled (Creation.create_joint_revision w (revision_request user joint_id x) db))

  unfoldable pub post : World M → ℕ → Post M → Db M → Response (Answer M) × Db M
  unfolding post_joint post_revision post_submit post_approve post_reject
  post w user (joint x) db = post_joint w user x db
  post w user (revision joint_id x) db = post_revision w user joint_id x db
  post w user (submit revision_id) db = post_submit w user revision_id db
  post w user (approve revision_id) db = post_approve w user revision_id db
  post w user (reject revision_id) db = post_reject w user revision_id db
