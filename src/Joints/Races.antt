-- ===== src/Joints/Races.antt =====
-- The creation of a revision while others write between its statements (`create_joint_revision` of
-- backend/joints/service.py).
use torq_pro.Prelude.{
  ◌≡◌, ◌≢◌, sym, ◌∙◌, ℕ, String, inl, inr, Option, none, some, ◌==◌, string_eq, option_eq, nat_eq,
  Bool-cases, Option-cases, err, Result-cases,
}
use torq_pro.Governance.Events.{Metadata}
use torq_pro.Sqlite.{fetch}
use torq_pro.Joints.Tables.{Revision, Db, JointError, integrity_error, joint_key, revision_key}
use torq_pro.Joints.Service.{World, RevisionRequest, get_joint}
use torq_pro.Joints.Creation.{
  match_existing, lookup_existing, after_violation, inserted, create_in, create_joint_revision,
}
use torq_pro.Joints.Outcomes.{match_existing-raises, reused_caught}

module _ {M : Type 0} ⦃meta : Metadata M⦄ (r : RevisionRequest M) (key : String)
    (k : r.idempotency_key ≡ some key) where
  match_caught :
      (db : Db M) (e : JointError) → match_existing key r db ≡ err e → e ≢ integrity_error
  match_caught db e m i = reused_caught (sym (match_existing-raises key r db e m) ∙ i)

  violation_caught : (db : Db M) → after_violation r db ≢ err integrity_error
  unfolding after_violation
  violation_caught db h = elim (Result-cases (match_existing key r db)) [
    | inr (e, m) ↦ match_caught db e m (cc (rw (after_violation, k, m) at h))
    | inl (none, m) ↦ cc (rw (after_violation, k, m) at h)
    | inl (some row, m) ↦ cc (rw (after_violation, k, m) at h)
  ]

  inserted_caught :
      (w : World M) (n : ℕ) (result : Option (Revision M × Db M)) (db : Db M)
      → (inserted w r n result db).0 ≢ err integrity_error
  unfolding inserted
  inserted_caught w n none db h = violation_caught db h
  inserted_caught w n (some (row, after)) db h = cc

  create_in_caught :
      (w : World M) (status : String) (db : Db M)
      → (create_in w r status db).0 ≢ err integrity_error
  unfolding create_in lookup_existing
  create_in_caught w status db h = elim (Result-cases (match_existing key r db)) [
    | inr (e, m) ↦ match_caught db e m (cc (rw (create_in, lookup_existing, k, m) at h))
    | inl (some row, m) ↦ cc (rw (create_in, lookup_existing, k, m) at h)
    | inl (none, m) ↦ elim (Bool-cases (status == "archived")) [
      | inl s ↦ cc (rw (create_in, lookup_existing, k, m, s) at h)
      | inr s ↦ inserted_caught w _ _ _ (rw (create_in, lookup_existing, k, m, s) at h)
    ]
  ]

  -- A creation with an idempotency key never lets an IntegrityError out, whatever others write
  -- between its statements.
  pub create-caught :
      (w : World M) (db : Db M) → (create_joint_revision w r db).0 ≢ err integrity_error
  unfolding create_joint_revision
  create-caught w db h = elim (Option-cases (fetch r.joint_id db.joints)) [
    | inl e ↦ cc (rw (create_joint_revision, get_joint, e) at h)
    | inr (j, e) ↦
        create_in_caught w j.status (w.gap 0 db) (rw (create_joint_revision, get_joint, e) at h)
  ]
