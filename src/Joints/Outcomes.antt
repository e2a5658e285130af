-- ===== src/Joints/Outcomes.antt =====
-- What the operations behind the joint routes answer or raise (backend/joints/service.py).
use torq_pro.Prelude.{
  ◌≡◌, ◌≢◌, refl, sym, ◌∙◌, ℕ, ◌≤◌, String, true, false, ◌&&◌, inl, inr, Option, none, some, ◌==◌,
  string_eq, option_eq, nat_eq, eqb, find, find-fails, All-map, Bool-cases, Option-cases, ok, err,
  Result-cases, arith,
}
use torq_pro.Governance.Events.{Metadata}
use torq_pro.Sqlite.{alone, next_id, fetch, max_of}
use torq_pro.Sqlite.Laws.{max_of-selected, numbered_apart}
use torq_pro.Joints.Tables.{
  Joint, Db, JointError, integrity_error, joint_key, revision_key, has_id, is_some, number_clash,
  key_clash, revision_clash, insert_joint, insert_revision,
}
use torq_pro.Joints.Service
use torq_pro.Joints.Service.{
  World, Reply, Answer, JointRequest, RevisionRequest, get_joint, get_joint_revision,
}
use torq_pro.Joints.Creation
use torq_pro.Joints.Creation.{
  of_joint, next_revision_no, new_revision, match_existing, lookup_existing, with_key,
  is_same_request, key_reused, after_violation, inserted, create_in,
}

module _ {M : Type 0} where
  -- A value, or an exception that the routes know and that wrote nothing.
  pub data IsOutcome (db : Db M) (reply : Reply M) : Type 0 where
    answered : (a : Answer M) → reply.0 ≡ ok a → IsOutcome db reply
    raised :
        (e : JointError) → e ≢ integrity_error → reply.0 ≡ err e → reply.1 ≡ db → IsOutcome db reply

  pub create_joint-IsOutcome :
      (now : ℕ → String) (r : JointRequest) (db : Db M)
      → IsOutcome db (Service.create_joint (alone now) r db)
  unfolding Service.create_joint insert_joint
  create_joint-IsOutcome now r db = elim (Bool-cases (has_id r.project_id db.projects)) [
    | inr p ↦ rw (Service.create_joint, p) (IsOutcome.raised _ (λ e. cc) refl refl)
    | inl p ↦
        elim (Option-cases
          (find (λ j. eqb j.project_id r.project_id && (j.joint_code == r.joint_code)) db.joints)) [
            | inr (j, e) ↦ rw (Service.create_joint, p, e) (IsOutcome.raised _ (λ e. cc) refl refl)
            | inl e ↦ rw (Service.create_joint, p, e) (IsOutcome.answered _ refl)
          ]
  ]

  pub submit-IsOutcome :
      (now : ℕ → String) (revision_id : ℕ) (actor_id : Option ℕ) (db : Db M)
      → IsOutcome db (Service.submit_joint_revision (alone now) revision_id actor_id db)
  unfolding Service.submit_joint_revision
  submit-IsOutcome now revision_id actor_id db =
      elim (Option-cases (fetch revision_id db.revisions)) [
        | inl e ↦
            rw (Service.submit_joint_revision, get_joint_revision, e)
              (IsOutcome.raised _ (λ e. cc) refl refl)
        | inr (rev, e) ↦ elim (Bool-cases (rev.status == "draft")) [
          | inl s ↦
              rw (Service.submit_joint_revision, get_joint_revision, e, s)
                (IsOutcome.answered _ refl)
          | inr s ↦
              rw (Service.submit_joint_revision, get_joint_revision, e, s)
                (IsOutcome.raised _ (λ e. cc) refl refl)
        ]
      ]

  pub approve-IsOutcome :
      (now : ℕ → String) (revision_id : ℕ) (actor_id : Option ℕ) (db : Db M)
      → IsOutcome db (Service.approve_joint_revision (alone now) revision_id actor_id db)
  unfolding Service.approve_joint_revision
  approve-IsOutcome now revision_id actor_id db =
      elim (Option-cases (fetch revision_id db.revisions)) [
        | inl e ↦
            rw (Service.approve_joint_revision, get_joint_revision, e)
              (IsOutcome.raised _ (λ e. cc) refl refl)
        | inr (rev, e) ↦ elim (Bool-cases (rev.status == "review")) [
          | inr s ↦
              rw (Service.approve_joint_revision, get_joint_revision, e, s)
                (IsOutcome.raised _ (λ e. cc) refl refl)
          | inl s ↦ elim (Bool-cases (rev.created_by == actor_id)) [
            | inl o ↦
                rw (Service.approve_joint_revision, get_joint_revision, e, s, o)
                  (IsOutcome.raised _ (λ e. cc) refl refl)
            | inr o ↦
                rw (Service.approve_joint_revision, get_joint_revision, e, s, o)
                  (IsOutcome.answered _ refl)
          ]
        ]
      ]

  pub reject-IsOutcome :
      (now : ℕ → String) (revision_id : ℕ) (actor_id : Option ℕ) (db : Db M)
      → IsOutcome db (Service.reject_joint_revision (alone now) revision_id actor_id db)
  unfolding Service.reject_joint_revision
  reject-IsOutcome now revision_id actor_id db =
      elim (Option-cases (fetch revision_id db.revisions)) [
        | inl e ↦
            rw (Service.reject_joint_revision, get_joint_revision, e)
              (IsOutcome.raised _ (λ e. cc) refl refl)
        | inr (rev, e) ↦ elim (Bool-cases (rev.status == "review")) [
          | inr s ↦
              rw (Service.reject_joint_revision, get_joint_revision, e, s)
                (IsOutcome.raised _ (λ e. cc) refl refl)
          | inl s ↦ elim (Bool-cases (rev.created_by == actor_id)) [
            | inl o ↦
                rw (Service.reject_joint_revision, get_joint_revision, e, s, o)
                  (IsOutcome.raised _ (λ e. cc) refl refl)
            | inr o ↦
                rw (Service.reject_joint_revision, get_joint_revision, e, s, o)
                  (IsOutcome.answered _ refl)
          ]
        ]
      ]

pub reused_caught : key_reused ≢ integrity_error
reused_caught e = cc

unkeyed_apart :
    (a b : ℕ) (key : Option String) → (eqb a b && (is_some key && (key == none))) ≡ false
unkeyed_apart a b none = ground arith
unkeyed_apart a b (some key) = ground arith

module _ {M : Type 0} ⦃meta : Metadata M⦄ where
  -- What the lookup raises is the reuse of the key.
  pub match_existing-raises :
      (key : String) (r : RevisionRequest M) (db : Db M) (e : JointError)
      → match_existing key r db ≡ err e
      → e ≡ key_reused
  unfolding match_existing
  match_existing-raises key r db e h = elim (Option-cases (with_key r.joint_id key db.revisions)) [
    | inl n ↦ cc (rw (match_existing, n) at h)
    | inr (old, n) ↦ elim (Bool-cases (is_same_request old r)) [
      | inl s ↦ cc (rw (match_existing, n, s) at h)
      | inr s ↦ cc (rw (match_existing, n, s) at h)
    ]
  ]

  -- A new revision without a key clashes with none.
  unkeyed_fresh :
      (r : RevisionRequest M) (ts : String) (id : ℕ) (db : Db M)
      → r.idempotency_key ≡ none
      → find
          (λ old. revision_clash old (new_revision r (next_revision_no r.joint_id db) ts id))
          db.revisions
        ≡ none
  unfolding new_revision next_revision_no revision_clash number_clash key_clash
  unkeyed_fresh r ts id db k =
      find-fails (λ old. revision_clash old (new_revision r (next_revision_no r.joint_id db) ts id))
        db.revisions
        (All-map
          (λ x.
            eqb x.joint_id r.joint_id ≡ true
            → x.revision_no ≤ max_of (λ y. y.revision_no) (of_joint r.joint_id db.revisions))
          (λ old.
            revision_clash old (new_revision r (next_revision_no r.joint_id db) ts id) ≡ false)
          (λ x below.
            rw (k, numbered_apart x.joint_id r.joint_id x.revision_no _ below)
              (unkeyed_apart x.joint_id r.joint_id x.idempotency_key))
          db.revisions
          (max_of-selected (λ x. eqb x.joint_id r.joint_id) (λ x. x.revision_no) db.revisions))

  after_violation-raises :
      (r : RevisionRequest M) (key : String) (db : Db M)
      → r.idempotency_key ≡ some key
      → match_existing key r db ≡ ok none
      → after_violation r db ≡ err Creation.conflicting_write
  unfolding after_violation
  after_violation-raises r key db k m = rw (after_violation, k, m) refl

  create_in-IsOutcome :
      (now : ℕ → String) (r : RevisionRequest M) (j : Joint) (db : Db M)
      → fetch r.joint_id db.joints ≡ some j
      → IsOutcome db (create_in (alone now) r j.status db)
  unfolding create_in insert_revision inserted lookup_existing
  create_in-IsOutcome now r j db found = elim (Option-cases r.idempotency_key) [
    | inl k ↦ elim (Bool-cases (j.status == "archived")) [
      | inl s ↦ rw (create_in, lookup_existing, k, s) (IsOutcome.raised _ (λ e. cc) refl refl)
      | inr s ↦
          rw
            (
              create_in,
              lookup_existing,
              k,
              s,
              insert_revision,
              found,
              unkeyed_fresh r (now 0) (next_id db.revisions) db k,
            )
            (IsOutcome.answered _ refl)
    ]
    | inr (key, k) ↦ elim (Result-cases (match_existing key r db)) [
      | inr (e, m) ↦
          rw (create_in, lookup_existing, k, m)
            (IsOutcome.raised e (λ i. reused_caught (sym (match_existing-raises key r db e m) ∙ i))
              refl refl)
      | inl (some row, m) ↦ rw (create_in, lookup_existing, k, m) (IsOutcome.answered _ refl)
      | inl (none, m) ↦ elim (Bool-cases (j.status == "archived")) [
        | inl s ↦ rw (create_in, lookup_existing, k, m, s) (IsOutcome.raised _ (λ e. cc) refl refl)
        | inr s ↦
            elim (Option-cases (
              find
                (λ old.
                  revision_clash old (
                    new_revision r (next_revision_no r.joint_id db) (now 0) (next_id db.revisions)))
                db.revisions)) [
                  | inl c ↦
                      rw (create_in, lookup_existing, k, m, s, insert_revision, found, c)
                        (IsOutcome.answered _ refl)
                  | inr (old, c) ↦
                      rw (create_in, lookup_existing, k, m, s, insert_revision, found, c, inserted)
                        (IsOutcome.raised Creation.conflicting_write (λ e. cc)
                          (after_violation-raises r key db k m) refl)
                ]
      ]
    ]
  ]

  pub create_joint_revision-IsOutcome :
      (now : ℕ → String) (r : RevisionRequest M) (db : Db M)
      → IsOutcome db (Creation.create_joint_revision (alone now) r db)
  unfolding Creation.create_joint_revision
  create_joint_revision-IsOutcome now r db = elim (Option-cases (fetch r.joint_id db.joints)) [
    | inl e ↦
        rw (Creation.create_joint_revision, get_joint, e) (IsOutcome.raised _ (λ e. cc) refl refl)
    | inr (j, e) ↦
        rw (Creation.create_joint_revision, get_joint, e) (create_in-IsOutcome now r j db e)
  ]
