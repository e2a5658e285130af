-- ===== src/Joints/Creation.antt =====
-- The creation of a revision, with its idempotency key (`create_joint_revision` of
-- backend/joints/service.py).
use torq_pro.Prelude.{
  ℕ, ◌+◌, String, Bool, ◌&&◌, Option, none, some, List, ◌==◌, string_eq, option_eq, nat_eq, eqb,
  find, filter, if◌then◌else◌, Result, ok, err,
}
use torq_pro.Governance.Events.{Metadata}
use torq_pro.Governance.Requests.{or_empty}
use torq_pro.Sqlite.{max_of}
use torq_pro.Joints.Tables.{
  Revision, Detail, Db, JointError, joint_archived, revision_conflict, integrity_error,
  insert_revision, audit,
}
use torq_pro.Joints.Service.{World, Reply, Answer, RevisionRequest, get_joint}

abbrev pub key_reused : JointError
key_reused =
    revision_conflict "idempotency_key already used for this joint with a different request"

abbrev pub conflicting_write : JointError
conflicting_write =
    revision_conflict "joint revision could not be created due to a conflicting write"

module _ {M : Type 0} where
  abbrev pub of_joint : ℕ → List (Revision M) → List (Revision M)
  of_joint joint_id rows = filter (λ r. eqb r.joint_id joint_id) rows

  -- `COALESCE(MAX(revision_no),0)+1`
  unfoldable pub next_revision_no : ℕ → Db M → ℕ
  unfolding max_of filter
  next_revision_no joint_id db = max_of (λ r. r.revision_no) (of_joint joint_id db.revisions) + 1

  unfoldable pub with_key : ℕ → String → List (Revision M) → Option (Revision M)
  unfolding find
  with_key joint_id key rows =
      find (λ r. eqb r.joint_id joint_id && (r.idempotency_key == some key)) rows

module _ {M : Type 0} ⦃meta : Metadata M⦄ where
  -- The stored request is the one sent: the snapshot, the summary and the author.
  unfoldable pub is_same_request : Revision M → RevisionRequest M → Bool
  is_same_request row r =
      meta.same.matches (or_empty row.snapshot) (or_empty r.snapshot)
      && (row.change_summary == r.change_summary)
      && (row.created_by == r.created_by)

  -- `_match_existing_idempotent_revision`
  unfoldable pub match_existing :
      String → RevisionRequest M → Db M → Result JointError (Option (Revision M))
  unfolding with_key is_same_request
  match_existing key r db = elim (with_key r.joint_id key db.revisions) [
    | none ↦ ok none
    | some row ↦ if is_same_request row r then ok (some row) else err key_reused
  ]

  -- The lookup, which only a request with a key makes.
  unfoldable pub lookup_existing :
      RevisionRequest M → Db M → Result JointError (Option (Revision M))
  unfolding match_existing
  lookup_existing r db = elim r.idempotency_key [
    | none ↦ ok none
    | some key ↦ match_existing key r db
  ]

  unfoldable pub new_revision : RevisionRequest M → ℕ → String → ℕ → Revision M
  new_revision r revision_no ts id = record {
    id = id;
    joint_id = r.joint_id;
    revision_no = revision_no;
    status = "draft";
    snapshot = some (or_empty r.snapshot);
    change_summary = r.change_summary;
    created_by = r.created_by;
    created_at = ts;
    submitted_at = none;
    reviewed_by = none;
    reviewed_at = none;
    approved_at = none;
    idempotency_key = r.idempotency_key;
  }

  -- What follows an IntegrityError: with a key a second lookup, without one nothing catches it.
  unfoldable pub after_violation : RevisionRequest M → Db M → Result JointError (Answer M)
  unfolding match_existing
  after_violation r db = elim r.idempotency_key [
    | none ↦ err integrity_error
    | some key ↦ elim (match_existing key r db) [
      | err e ↦ err e
      | ok none ↦ err conflicting_write
      | ok (some row) ↦ ok (Answer.revision (some row))
    ]
  ]

  unfoldable pub inserted :
      World M → RevisionRequest M → ℕ → Option (Revision M × Db M) → Db M → Reply M
  unfolding after_violation audit
  inserted w r revision_no none db = (after_violation r db, db)
  inserted w r revision_no (some (row, db')) db = (
    ok (Answer.revision (some row)),
    audit r.created_by "joint_revision_create" (Detail.joint_rev r.joint_id revision_no) (w.now 1)
        db',
  )

  -- The second transaction: the lookup, the check of the joint that was read before, and the insert.
  unfoldable pub create_in : World M → RevisionRequest M → String → Db M → Reply M
  unfolding lookup_existing next_revision_no insert_revision new_revision inserted
  create_in w r joint_status db = elim (lookup_existing r db) [
    | err e ↦ (err e, db)
    | ok (some row) ↦ (ok (Answer.revision (some row)), db)
    | ok none ↦
        if joint_status == "archived"
        then (err (joint_archived r.joint_id), db)
        else let revision_no = next_revision_no r.joint_id db in
          let before = w.gap 1 db in
          inserted w r revision_no (insert_revision (new_revision r revision_no (w.now 0)) before)
            before
  ]

  unfoldable pub create_joint_revision : World M → RevisionRequest M → Db M → Reply M
  unfolding get_joint create_in
  create_joint_revision w r db = elim (get_joint r.joint_id db) [
    | err e ↦ (err e, db)
    | ok row ↦ create_in w r row.status (w.gap 0 db)
  ]
