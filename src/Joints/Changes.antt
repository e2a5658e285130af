-- ===== src/Joints/Changes.antt =====
-- What a call that runs alone has done to the tables, by cases (backend/joints/service.py).
use torq_pro.Prelude.{
  ◌≡◌, refl, ℕ, String, true, false, ◌&&◌, Option, none, some, [], ◌∷◌, ◌++◌, ◌==◌, string_eq,
  option_eq, nat_eq, eqb, find, All, Bool-cases, Option-cases, inl, inr, Result-cases, find-none,
}
use torq_pro.Governance.Events.{Metadata}
use torq_pro.Sqlite.{alone, next_id, fetch, update}
use torq_pro.Joints.Tables.{
  Joint, Revision, Db, joint_key, revision_key, has_id, joint_clash, revision_clash, insert_joint,
  insert_revision,
}
use torq_pro.Joints.Service
use torq_pro.Joints.Service.{
  World, JointRequest, RevisionRequest, new_joint, set_archived, set_submitted, set_approved,
  set_current, set_rejected, get_joint, get_joint_revision,
}
use torq_pro.Joints.Creation
use torq_pro.Joints.Creation.{next_revision_no, new_revision, lookup_existing, create_in, inserted}
use torq_pro.Joints.Commands.{Command, run}

module _ {M : Type 0} ⦃meta : Metadata M⦄ where
  -- The tables before and after; the audit log is left out.
  pub data Change (db after : Db M) : Type 0 where
    unchanged : after.joints ≡ db.joints → after.revisions ≡ db.revisions → Change db after
    joint_added :
        (r : JointRequest) (ts : String)
        → All (λ old. joint_clash old (new_joint r ts (next_id db.joints)) ≡ false) db.joints
        → after.joints ≡ db.joints ++ new_joint r ts (next_id db.joints) ∷ []
        → after.revisions ≡ db.revisions
        → Change db after
    joint_closed :
        (joint_id : ℕ) (archived_at updated_at : String)
        → after.joints ≡ update joint_id (set_archived archived_at updated_at) db.joints
        → after.revisions ≡ db.revisions
        → Change db after
    revision_added :
        (r : RevisionRequest M) (ts : String) (row : Joint)
        → fetch r.joint_id db.joints ≡ some row
        → (row.status == "archived") ≡ false
        → All
            (λ old.
              revision_clash old
                (new_revision r (next_revision_no r.joint_id db) ts (next_id db.revisions))
              ≡ false)
            db.revisions
        → after.joints ≡ db.joints
        → after.revisions
          ≡ db.revisions
            ++ new_revision r (next_revision_no r.joint_id db) ts (next_id db.revisions) ∷ []
        → Change db after
    submitted :
        (revision_id : ℕ) (rev : Revision M) (ts : String)
        → fetch revision_id db.revisions ≡ some rev
        → (rev.status == "draft") ≡ true
        → after.joints ≡ db.joints
        → after.revisions ≡ update revision_id (set_submitted ts) db.revisions
        → Change db after
    approved :
        (revision_id : ℕ) (rev : Revision M) (actor_id : Option ℕ) (ts : String)
        → fetch revision_id db.revisions ≡ some rev
        → (rev.status == "review") ≡ true
        → (rev.created_by == actor_id) ≡ false
        → after.joints ≡ update rev.joint_id (set_current revision_id ts) db.joints
        → after.revisions ≡ update revision_id (set_approved actor_id ts) db.revisions
        → Change db after
    rejected :
        (revision_id : ℕ) (rev : Revision M) (actor_id : Option ℕ) (ts : String)
        → fetch revision_id db.revisions ≡ some rev
        → (rev.status == "review") ≡ true
        → (rev.created_by == actor_id) ≡ false
        → after.joints ≡ db.joints
        → after.revisions ≡ update revision_id (set_rejected actor_id ts) db.revisions
        → Change db after

  create_joint-Change :
      (now : ℕ → String) (r : JointRequest) (db : Db M)
      → Change db (Service.create_joint (alone now) r db).1
  unfolding Service.create_joint insert_joint
  create_joint-Change now r db = elim (Bool-cases (has_id r.project_id db.projects)) [
    | inr p ↦ rw (Service.create_joint, p) (Change.unchanged refl refl)
    | inl p ↦
        elim (Option-cases
          (find (λ j. eqb j.project_id r.project_id && (j.joint_code == r.joint_code)) db.joints)) [
            | inr (j, e) ↦ rw (Service.create_joint, p, e) (Change.unchanged refl refl)
            | inl e ↦
                rw (Service.create_joint, p, e)
                  (Change.joint_added r (now 0) (find-none _ db.joints e) refl refl)
          ]
  ]

  archive-Change :
      (now : ℕ → String) (joint_id : ℕ) (actor_id : Option ℕ) (db : Db M)
      → Change db (Service.archive_joint (alone now) joint_id actor_id db).1
  unfolding Service.archive_joint
  archive-Change now joint_id actor_id db = elim (Option-cases (fetch joint_id db.joints)) [
    | inl e ↦ rw (Service.archive_joint, get_joint, e) (Change.unchanged refl refl)
    | inr (row, e) ↦ elim (Bool-cases (row.status == "archived")) [
      | inl s ↦ rw (Service.archive_joint, get_joint, e, s) (Change.unchanged refl refl)
      | inr s ↦
          rw (Service.archive_joint, get_joint, e, s)
            (Change.joint_closed joint_id (now 0) (now 1) refl refl)
    ]
  ]

  create_in-Change :
      (now : ℕ → String) (r : RevisionRequest M) (row : Joint) (db : Db M)
      → fetch r.joint_id db.joints ≡ some row
      → Change db (create_in (alone now) r row.status db).1
  unfolding create_in insert_revision inserted
  create_in-Change now r row db h = elim (Result-cases (lookup_existing r db)) [
    | inr (e, l) ↦ rw (create_in, l) (Change.unchanged refl refl)
    | inl (some old, l) ↦ rw (create_in, l) (Change.unchanged refl refl)
    | inl (none, l) ↦ elim (Bool-cases (row.status == "archived")) [
      | inl s ↦ rw (create_in, l, s) (Change.unchanged refl refl)
      | inr s ↦
          elim (Option-cases (
            find
              (λ old.
                revision_clash old
                  (new_revision r (next_revision_no r.joint_id db) (now 0) (next_id db.revisions)))
              db.revisions)) [
                | inr (old, c) ↦
                    rw (create_in, l, s, insert_revision, h, c) (Change.unchanged refl refl)
                | inl c ↦
                    rw (create_in, l, s, insert_revision, h, c)
                      (Change.revision_added r (now 0) row h s (find-none _ db.revisions c) refl
                        refl)
              ]
    ]
  ]

  create_joint_revision-Change :
      (now : ℕ → String) (r : RevisionRequest M) (db : Db M)
      → Change db (Creation.create_joint_revision (alone now) r db).1
  unfolding Creation.create_joint_revision
  create_joint_revision-Change now r db = elim (Option-cases (fetch r.joint_id db.joints)) [
    | inl e ↦ rw (Creation.create_joint_revision, get_joint, e) (Change.unchanged refl refl)
    | inr (row, e) ↦
        rw (Creation.create_joint_revision, get_joint, e) (create_in-Change now r row db e)
  ]

  submit-Change :
      (now : ℕ → String) (revision_id : ℕ) (actor_id : Option ℕ) (db : Db M)
      → Change db (Service.submit_joint_revision (alone now) revision_id actor_id db).1
  unfolding Service.submit_joint_revision
  submit-Change now revision_id actor_id db = elim (Option-cases (fetch revision_id db.revisions)) [
    | inl e ↦ rw (Service.submit_joint_revision, get_joint_revision, e) (Change.unchanged refl refl)
    | inr (rev, e) ↦ elim (Bool-cases (rev.status == "draft")) [
      | inl s ↦
          rw (Service.submit_joint_revision, get_joint_revision, e, s)
            (Change.submitted revision_id rev (now 0) e s refl refl)
      | inr s ↦
          rw (Service.submit_joint_revision, get_joint_revision, e, s) (Change.unchanged refl refl)
    ]
  ]

  approve-Change :
      (now : ℕ → String) (revision_id : ℕ) (actor_id : Option ℕ) (db : Db M)
      → Change db (Service.approve_joint_revision (alone now) revision_id actor_id db).1
  unfolding Service.approve_joint_revision
  approve-Change now revision_id actor_id db =
      elim (Option-cases (fetch revision_id db.revisions)) [
        | inl e ↦
            rw (Service.approve_joint_revision, get_joint_revision, e) (Change.unchanged refl refl)
        | inr (rev, e) ↦ elim (Bool-cases (rev.status == "review")) [
          | inr s ↦
              rw (Service.approve_joint_revision, get_joint_revision, e, s)
                (Change.unchanged refl refl)
          | inl s ↦ elim (Bool-cases (rev.created_by == actor_id)) [
            | inl o ↦
                rw (Service.approve_joint_revision, get_joint_revision, e, s, o)
                  (Change.unchanged refl refl)
            | inr o ↦
                rw (Service.approve_joint_revision, get_joint_revision, e, s, o)
                  (Change.approved revision_id rev actor_id (now 0) e s o refl refl)
          ]
        ]
      ]

  reject-Change :
      (now : ℕ → String) (revision_id : ℕ) (actor_id : Option ℕ) (db : Db M)
      → Change db (Service.reject_joint_revision (alone now) revision_id actor_id db).1
  unfolding Service.reject_joint_revision
  reject-Change now revision_id actor_id db = elim (Option-cases (fetch revision_id db.revisions)) [
    | inl e ↦ rw (Service.reject_joint_revision, get_joint_revision, e) (Change.unchanged refl refl)
    | inr (rev, e) ↦ elim (Bool-cases (rev.status == "review")) [
      | inr s ↦
          rw (Service.reject_joint_revision, get_joint_revision, e, s) (Change.unchanged refl refl)
      | inl s ↦ elim (Bool-cases (rev.created_by == actor_id)) [
        | inl o ↦
            rw (Service.reject_joint_revision, get_joint_revision, e, s, o)
              (Change.unchanged refl refl)
        | inr o ↦
            rw (Service.reject_joint_revision, get_joint_revision, e, s, o)
              (Change.rejected revision_id rev actor_id (now 0) e s o refl refl)
      ]
    ]
  ]

  pub run-Change :
      (now : ℕ → String) (c : Command M) (db : Db M) → Change db (run (alone now) c db).1
  unfolding run
  run-Change now (Command.create_joint r) db = create_joint-Change now r db
  run-Change now (Command.create_joint_revision r) db = create_joint_revision-Change now r db
  run-Change now (Command.archive_joint i a) db = archive-Change now i a db
  run-Change now (Command.submit_joint_revision i a) db = submit-Change now i a db
  run-Change now (Command.approve_joint_revision i a) db = approve-Change now i a db
  run-Change now (Command.reject_joint_revision i a) db = reject-Change now i a db
