-- ===== src/Joints/Samples.antt =====
-- A project with a joint, and runs of the joint service on it.
use torq_pro.Prelude.{◌≡◌, refl, ℕ, String, none, some, List, [], ◌∷◌, map, filter, err}
use torq_pro.Governance.Samples.{json_text}
use torq_pro.Sqlite.{alone}
use torq_pro.Joints.Tables.{Joint, Revision, Db, integrity_error}
use torq_pro.Joints.Service.{World, JointRequest, RevisionRequest}
use torq_pro.Joints.Commands.{Command, run, replay}
use torq_pro.Joints.Invariant.{IsSound}
use torq_pro.Joints.Runs.{replay-keeps_IsSound}

abbrev pub clock : ℕ → String
clock n = "2026-01-01T00:00:00+00:00"

abbrev pub empty : Db String
empty = record { projects = 1 ∷ []; joints = []; revisions = []; audit_log = [] }

pub empty-IsSound : IsSound empty
unfolding filter
empty-IsSound = record {
  joint_ids = tt;
  joint_codes = tt;
  revision_ids = tt;
  revision_keys = tt;
  numbered = λ joint_id. tt;
  owned = tt;
  proper = tt;
  current = tt;
}

abbrev pub joint_request : JointRequest
joint_request = record {
  project_id = 1;
  joint_code = "J-1";
  name = "flange";
  description = none;
  created_by = some 1;
}

abbrev pub revision_request : RevisionRequest String
revision_request = record {
  joint_id = 1;
  snapshot = some "{\"torque\": 12}";
  change_summary = none;
  created_by = some 1;
  idempotency_key = some "k1";
}

abbrev pub first_calls : List ((ℕ → String) × Command String)
first_calls = (clock, Command.create_joint joint_request) ∷ []

abbrev pub later_calls : List ((ℕ → String) × Command String)
later_calls =
    (clock, Command.submit_joint_revision 1 (some 1))
    ∷ (clock, Command.approve_joint_revision 1 (some 2))
    ∷ (clock, Command.archive_joint 1 (some 1))
    ∷ []

abbrev pub first_joint : Joint
first_joint = record {
  id = 1;
  project_id = 1;
  joint_code = "J-1";
  name = "flange";
  description = none;
  status = "draft";
  current_revision_id = none;
  created_by = some 1;
  created_at = "2026-01-01T00:00:00+00:00";
  updated_at = some "2026-01-01T00:00:00+00:00";
  archived_at = none;
}

abbrev pub with_joint : Db String
with_joint = record empty { joints = first_joint ∷ [] }

abbrev pub first_revision : Revision String
first_revision = record {
  id = 1;
  joint_id = 1;
  revision_no = 1;
  status = "draft";
  snapshot = some "{\"torque\": 12}";
  change_summary = none;
  created_by = some 1;
  created_at = "2026-01-01T00:00:00+00:00";
  submitted_at = none;
  reviewed_by = none;
  reviewed_at = none;
  approved_at = none;
  idempotency_key = some "k1";
}

abbrev pub with_revision : Db String
with_revision = record with_joint { revisions = first_revision ∷ [] }

pub with_joint-IsSound : IsSound with_joint
unfolding filter
with_joint-IsSound = record {
  joint_ids = (tt, tt);
  joint_codes = (tt, tt);
  revision_ids = tt;
  revision_keys = tt;
  numbered = λ joint_id. tt;
  owned = tt;
  proper = tt;
  current = (tt, tt);
}

pub with_revision-IsSound : IsSound with_revision
unfolding replay
with_revision-IsSound =
    replay-keeps_IsSound ((clock, Command.create_joint_revision revision_request) ∷ []) with_joint
      with_joint-IsSound

abbrev pub statuses : Db String → List String × List String
statuses db = (map (λ j. j.status) db.joints, map (λ r. r.status) db.revisions)

-- An approval after the joint was archived.
abbrev pub archived_first : List ((ℕ → String) × Command String)
archived_first =
    (clock, Command.submit_joint_revision 1 (some 1))
    ∷ (clock, Command.archive_joint 1 (some 1))
    ∷ (clock, Command.approve_joint_revision 1 (some 2))
    ∷ []

reactivated_runs : statuses (replay archived_first with_revision) ≡ ("active" ∷ [], "approved" ∷ [])
unfolding replay
reactivated_runs = refl

approved_runs : statuses (replay later_calls with_revision) ≡ ("archived" ∷ [], "approved" ∷ [])
unfolding replay
approved_runs = refl

-- Another reviewer approves while a rejection is under way.
abbrev pub racing : World String
racing = record {
  now = clock;
  gap = λ _ db. (run (alone clock) (Command.approve_joint_revision 1 (some 2)) db).1;
}

abbrev in_review : Db String
in_review = record with_joint { revisions = record first_revision { status = "review" } ∷ [] }

rejected_runs :
    statuses (run racing (Command.reject_joint_revision 1 (some 3)) in_review).1
    ≡ ("active" ∷ [], "rejected" ∷ [])
unfolding run
rejected_runs = refl

-- Another client creates the joint while its creation is under way.
twice_runs :
    (run
      (record {
        now = clock;
        gap = λ _ db. (run (alone clock) (Command.create_joint joint_request) db).1;
      })
      (Command.create_joint joint_request)
      empty).0
    ≡ err integrity_error
unfolding run
twice_runs = refl
