-- ===== src/Joints/Retries.antt =====
-- The retry of a creation with an idempotency key (`create_joint_revision` of
-- backend/joints/service.py).
use torq_pro.Prelude.{
  ◌≡◌, refl, ap, subst, ◌∙◌, ℕ, String, Bool, true, ◌&&◌, inl, inr, Option, none, some, List, [],
  ◌∷◌, ◌++◌, ◌==◌, string_eq, option_eq, nat_eq, eqb, eqb-eq, find, find-snoc, find-passes,
  matches_refl, All-find, Bool-cases, Option-cases, Result, ok, Result-cases, arith,
}
use torq_pro.Governance.Events.{Metadata}
use torq_pro.Governance.Requests.{or_empty}
use torq_pro.Sqlite.{alone, next_id, fetch}
use torq_pro.Joints.Tables.{
  Joint, Revision, Db, JointError, joint_key, revision_key, is_some, insert_revision,
  revision_clash,
}
use torq_pro.Joints.Service.{Answer, RevisionRequest, get_joint}
use torq_pro.Joints.Creation.{
  with_key, is_same_request, match_existing, lookup_existing, next_revision_no, new_revision,
  after_violation, inserted, create_in, create_joint_revision,
}
use torq_pro.Joints.Commands.{Command, run, replay}
use torq_pro.Joints.Invariant.{IsSound}
use torq_pro.Joints.Runs.{Change-IsSound, replay-keeps_IsSound}
use torq_pro.Joints.Changes.{run-Change}
use torq_pro.Joints.History.{Continues, fixed_part, replay-Keeps}

module _ {M : Type 0} ⦃meta : Metadata M⦄ (r : RevisionRequest M) (key : String) where
  answer_inj :
      (old row : Revision M)
      → ◌≡◌ {A = Result JointError (Option (Revision M))} (ok (some old)) (ok (some row))
      → old ≡ row
  answer_inj old row h = cc

  reply_inj :
      (old row : Revision M)
      → ◌≡◌ {A = Result JointError (Answer M)}
          (ok (Answer.revision (some old)))
          (ok (Answer.revision (some row)))
      → old ≡ row
  reply_inj old row h = cc

  -- A revision that the lookup under the key finds, and that was made of the same request.
  IsStored : Revision M → List (Revision M) → Type 0
  IsStored row rows = (with_key r.joint_id key rows ≡ some row) × (is_same_request row r ≡ true)

  lookup_stored :
      (row : Revision M) (db : Db M)
      → r.idempotency_key ≡ some key
      → IsStored row db.revisions
      → lookup_existing r db ≡ ok (some row)
  unfolding lookup_existing match_existing IsStored
  lookup_stored row db k h = rw (lookup_existing, k, match_existing, h.0, h.1) refl

  same-IsStored :
      (row : Revision M) (db : Db M)
      → r.idempotency_key ≡ some key
      → lookup_existing r db ≡ ok (some row)
      → IsStored row db.revisions
  unfolding lookup_existing match_existing IsStored
  same-IsStored row db k h = elim (Option-cases (with_key r.joint_id key db.revisions)) [
    | inl e ↦ cc (rw (lookup_existing, k, match_existing, e) at h)
    | inr (old, e) ↦ elim (Bool-cases (is_same_request old r)) [
      | inl s ↦
          subst (λ x. IsStored x db.revisions)
            (answer_inj old row (rw (lookup_existing, k, match_existing, e, s) at h)) (e, s)
      | inr s ↦ cc (rw (lookup_existing, k, match_existing, e, s) at h)
    ]
  ]

  none_stored :
      (db : Db M)
      → r.idempotency_key ≡ some key
      → lookup_existing r db ≡ ok none
      → with_key r.joint_id key db.revisions ≡ none
  unfolding lookup_existing match_existing
  none_stored db k h = elim (Option-cases (with_key r.joint_id key db.revisions)) [
    | inl e ↦ e
    | inr (old, e) ↦ elim (Bool-cases (is_same_request old r)) [
      | inl s ↦ cc (rw (lookup_existing, k, match_existing, e, s) at h)
      | inr s ↦ cc (rw (lookup_existing, k, match_existing, e, s) at h)
    ]
  ]

  -- Nothing stands under the key, and a row with it is inserted.
  new-IsStored :
      (revision_no id : ℕ) (ts : String) (rows : List (Revision M))
      → r.idempotency_key ≡ some key
      → with_key r.joint_id key rows ≡ none
      → IsStored (new_revision r revision_no ts id) (rows ++ new_revision r revision_no ts id ∷ [])
  unfolding new_revision with_key is_same_request IsStored
  new-IsStored revision_no id ts rows k none_yet = (
    find-snoc test rows (new_revision r revision_no ts id) ∙ rw (none_yet, passes) refl,
    rw
        (
          matches_refl (or_empty r.snapshot),
          matches_refl r.change_summary,
          matches_refl r.created_by,
        )
        refl,
  )
    where
      test : Revision M → Bool
      test x = eqb x.joint_id r.joint_id && (x.idempotency_key == some key)

      passes : test (new_revision r revision_no ts id) ≡ true
      passes = rw (k, (eqb-eq r.joint_id r.joint_id).1 refl, matches_refl (some key)) refl

  abbrev new : (ℕ → String) → Db M → Revision M
  new now db = new_revision r (next_revision_no r.joint_id db) (now 0) (next_id db.revisions)

  -- A creation that answers with a revision leaves it stored.
  create_in-IsStored :
      (now : ℕ → String) (j : Joint) (db : Db M) (row : Revision M)
      → r.idempotency_key ≡ some key
      → fetch r.joint_id db.joints ≡ some j
      → (create_in (alone now) r j.status db).0 ≡ ok (Answer.revision (some row))
      → IsStored row (create_in (alone now) r j.status db).1.revisions
  unfolding create_in insert_revision inserted after_violation match_existing
  create_in-IsStored now j db row k found h = elim (Result-cases (lookup_existing r db)) [
    | inr (e, l) ↦ cc (rw (create_in, l) at h)
    | inl (some old, l) ↦
        rw (create_in, l)
          (same-IsStored row db k
            (l ∙ ap ok (ap some (reply_inj old row (rw (create_in, l) at h)))))
    | inl (none, l) ↦ elim (Bool-cases (j.status == "archived")) [
      | inl s ↦ cc (rw (create_in, l, s) at h)
      | inr s ↦ elim (Option-cases (find (λ old. revision_clash old (new now db)) db.revisions)) [
        | inr (old, c) ↦ cc (
            rw
              (
                create_in,
                l,
                s,
                insert_revision,
                found,
                c,
                after_violation,
                k,
                match_existing,
                none_stored db k l,
              )
              at h)
        | inl c ↦
            rw (create_in, l, s, insert_revision, found, c)
              (subst (λ x. IsStored x (db.revisions ++ new now db ∷ []))
                (reply_inj (new now db) row (rw (create_in, l, s, insert_revision, found, c) at h))
                (new-IsStored (next_revision_no r.joint_id db) (next_id db.revisions) (now 0)
                  db.revisions k (none_stored db k l)))
      ]
    ]
  ]

  create-IsStored :
      (now : ℕ → String) (db : Db M) (row : Revision M)
      → r.idempotency_key ≡ some key
      → (create_joint_revision (alone now) r db).0 ≡ ok (Answer.revision (some row))
      → IsStored row (create_joint_revision (alone now) r db).1.revisions
  unfolding create_joint_revision
  create-IsStored now db row k h = elim (Option-cases (fetch r.joint_id db.joints)) [
    | inl e ↦ cc (rw (create_joint_revision, get_joint, e) at h)
    | inr (j, e) ↦
        rw (create_joint_revision, get_joint, e)
          (create_in-IsStored now j db row k e (rw (create_joint_revision, get_joint, e) at h))
  ]

  -- A creation under a key that is stored answers with what is stored.
  create_again :
      (now : ℕ → String) (db : Db M) (row : Revision M)
      → IsSound db
      → r.idempotency_key ≡ some key
      → IsStored row db.revisions
      → create_joint_revision (alone now) r db ≡ (ok (Answer.revision (some row)), db)
  unfolding create_joint_revision create_in with_key IsStored
  create_again now db row h k stored = elim (Option-cases (fetch r.joint_id db.joints)) [
    | inl e ↦ cc (rw (owner, e) at owned)
    | inr (j, e) ↦
        rw (create_joint_revision, get_joint, e, create_in, lookup_stored row db k stored) refl
  ]
    where
      test : Revision M → Bool
      test x = eqb x.joint_id r.joint_id && (x.idempotency_key == some key)

      owned : is_some (fetch row.joint_id db.joints) ≡ true
      owned =
          All-find (λ x. is_some (fetch x.joint_id db.joints) ≡ true) test db.revisions row h.owned
            stored.0

      owner : row.joint_id ≡ r.joint_id
      owner = ground (arith, find-passes test db.revisions row stored.0)

module _ {M : Type 0} ⦃meta : Metadata M⦄ where
  -- On sound tables, a creation with an idempotency key that answered with a revision is safe to
  -- repeat: after any further calls that run one after the other, the archiving of the joint
  -- included, the same request answers with that revision as it then stands and writes nothing.
  pub create-retry :
      (r : RevisionRequest M) (key : String) (now again : ℕ → String)
      → (calls : List ((ℕ → String) × Command M)) (db : Db M) (row : Revision M) → IsSound db
      → r.idempotency_key ≡ some key
      → (create_joint_revision (alone now) r db).0 ≡ ok (Answer.revision (some row))
      → (next : Revision M) × (create_joint_revision
            (alone again)
            r
            (replay calls (create_joint_revision (alone now) r db).1)
          ≡ (
            ok (Answer.revision (some next)),
            replay calls (create_joint_revision (alone now) r db).1,
          ))
        × Continues row next
  unfolding IsStored with_key is_same_request run fixed_part
  create-retry r key now again calls db row h k made =
      let after = (create_joint_revision (alone now) r db).1 in
      let sound = Change-IsSound db after (run-Change now (Command.create_joint_revision r) db) h in
      let (found, same) = create-IsStored r key now db row k made in
      let (next, later, c) =
        replay-Keeps calls after sound
          (λ x. eqb x.joint_id r.joint_id && (x.idempotency_key == some key))
          (λ x y c. ap (λ z. eqb z.joint_id r.joint_id && (z.idempotency_key == some key)) c.fixed)
          row found in
      (
        next,
        create_again r key again (replay calls after) next (replay-keeps_IsSound calls after sound)
            k (later, ap (λ z. is_same_request z r) c.fixed ∙ same),
        c,
      )
