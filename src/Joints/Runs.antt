-- ===== src/Joints/Runs.antt =====
-- The invariant of the joint tables under the calls that the service makes one after the other
-- (backend/joints/service.py).
use torq_pro.Prelude.{
  ◌≡◌, ◌≢◌, refl, sym, ℕ, String, true, false, ◌⊎◌, inl, inr, Option, List, [], ◌∷◌, ◌==◌,
  string_eq, option_eq, nat_eq, eqb-eq, ◌∙◌,
}
use torq_pro.Governance.Events.{Metadata}
use torq_pro.Sqlite.{alone, update}
use torq_pro.Sqlite.Laws.{fetch-update}
use torq_pro.Joints.Tables.{Revision, Db, joint_key, revision_key, is_some}
use torq_pro.Joints.Service.{set_archived, set_submitted, set_approved, set_current, set_rejected}
use torq_pro.Joints.Commands.{Command, run, replay}
use torq_pro.Joints.Changes.{Change, run-Change}
use torq_pro.Joints.Invariant.{IsProper, IsSound}
use torq_pro.Joints.Updates.{KeepsIdentity}
use torq_pro.Joints.Soundness.{revised-AreSound, touched-AreSound}
use torq_pro.Joints.Additions.{joint_added-AreSound, revision_added-AreSound}

not_yet_approved : (s t : String) → (s == t) ≡ true → t ≢ "approved" → s ≢ "approved"
not_yet_approved s t e n = λ a. n (sym ((string_eq.matches_iff s t).0 e) ∙ a)

module _ {M : Type 0} where
  -- A revision in the status "draft" or "review" is proper as that.
  submit_proper :
      (r : Revision M) (ts : String)
      → r.status ≡ "draft"
      → IsProper r
      → IsProper (set_submitted ts r)
  unfolding set_submitted
  submit_proper r ts e (IsProper.open_draft s none_yet) = IsProper.in_review refl none_yet
  submit_proper r ts e (IsProper.in_review s none_yet) = IsProper.in_review refl none_yet
  submit_proper r ts e (IsProper.reviewed (inl s) _ _) = cc
  submit_proper r ts e (IsProper.reviewed (inr s) _ _) = cc

  decided_proper :
      (f : Revision M → Revision M) (r : Revision M) (actor_id : Option ℕ)
      → ((f r).status ≡ "approved") ⊎ ((f r).status ≡ "rejected")
      → is_some (f r).reviewed_at ≡ true
      → (f r).created_by ≡ r.created_by
      → (f r).reviewed_by ≡ actor_id
      → (r.created_by == actor_id) ≡ false
      → IsProper (f r)
  decided_proper f r actor_id s at author by other = IsProper.reviewed s at (rw (author, by) other)

  submitted_keeps : (ts : String) → KeepsIdentity {M = M} (set_submitted ts)
  unfolding set_submitted
  submitted_keeps ts = record {
    id = λ r. refl;
    joint_id = λ r. refl;
    revision_no = λ r. refl;
    key = λ r. refl;
  }

  approved_keeps :
      (actor_id : Option ℕ) (ts : String) → KeepsIdentity {M = M} (set_approved actor_id ts)
  unfolding set_approved
  approved_keeps actor_id ts = record {
    id = λ r. refl;
    joint_id = λ r. refl;
    revision_no = λ r. refl;
    key = λ r. refl;
  }

  rejected_keeps :
      (actor_id : Option ℕ) (ts : String) → KeepsIdentity {M = M} (set_rejected actor_id ts)
  unfolding set_rejected
  rejected_keeps actor_id ts = record {
    id = λ r. refl;
    joint_id = λ r. refl;
    revision_no = λ r. refl;
    key = λ r. refl;
  }

module _ {M : Type 0} ⦃meta : Metadata M⦄ where
  -- Each change leaves the tables sound.
  pub Change-IsSound : (db after : Db M) → Change db after → IsSound db → IsSound after
  unfolding set_submitted set_approved set_rejected set_archived set_current
  Change-IsSound db after (Change.unchanged ej er) h = rw (ej, er) h
  Change-IsSound db after (Change.joint_added r ts clash ej er) h =
      rw (ej, er) (joint_added-AreSound r ts db.joints db.revisions clash h)
  Change-IsSound db after (Change.joint_closed joint_id a u ej er) h =
      rw (ej, er)
        (touched-AreSound joint_id (set_archived a u)
          (record { id = λ j. refl; project_id = λ j. refl; joint_code = λ j. refl }) db.joints
          db.revisions (λ j e c. c) h)
  Change-IsSound db after (Change.revision_added r ts row found live clash ej er) h =
      rw (ej, er) (revision_added-AreSound r ts row db found clash h)
  Change-IsSound db after (Change.submitted revision_id rev ts found s ej er) h =
      rw (ej, er)
        (revised-AreSound revision_id (set_submitted ts) (submitted_keeps ts) db.joints db.revisions
          rev found (not_yet_approved rev.status "draft" s (λ e. cc))
          (submit_proper rev ts ((string_eq.matches_iff rev.status "draft").0 s)) h)
  Change-IsSound db after (Change.rejected revision_id rev actor_id ts found s other ej er) h =
      rw (ej, er)
        (revised-AreSound revision_id (set_rejected actor_id ts) (rejected_keeps actor_id ts)
          db.joints db.revisions rev found (not_yet_approved rev.status "review" s (λ e. cc))
          (λ p.
            decided_proper (set_rejected actor_id ts) rev actor_id (inr refl) refl refl refl other)
          h)
  Change-IsSound db after (Change.approved revision_id rev actor_id ts found s other ej er) h =
      rw (ej, er)
        (touched-AreSound rev.joint_id (set_current revision_id ts)
          (record { id = λ j. refl; project_id = λ j. refl; joint_code = λ j. refl }) db.joints
          (update revision_id (set_approved actor_id ts) db.revisions)
          (λ j e c. (
            set_approved actor_id ts rev,
            fetch-update revision_id (set_approved actor_id ts) (λ r. refl) revision_id db.revisions
                ∙ rw (found, (eqb-eq revision_id revision_id).1 refl) refl,
            refl,
            sym e,
          ))
          (revised-AreSound revision_id (set_approved actor_id ts) (approved_keeps actor_id ts)
            db.joints db.revisions rev found (not_yet_approved rev.status "review" s (λ e. cc))
            (λ p.
              decided_proper (set_approved actor_id ts) rev actor_id (inl refl) refl refl refl
                other)
            h))

  -- No sequence of calls, each without another writer, leaves the joint tables unsound: ids ascend,
  -- codes are unique in a project and keys in a joint, the revisions of each joint are numbered
  -- from 1 without a gap, each belongs to a stored joint, only a decided one has a review and its
  -- reviewer is not its author, and the current revision of a joint is an approved one of its own.
  pub replay-keeps_IsSound :
      (calls : List ((ℕ → String) × Command M)) (db : Db M) → IsSound db → IsSound (replay calls db)
  unfolding replay
  replay-keeps_IsSound [] db h = h
  replay-keeps_IsSound ((now, c) ∷ cs) db h =
      replay-keeps_IsSound cs (run (alone now) c db).1
        (Change-IsSound db (run (alone now) c db).1 (run-Change now c db) h)
