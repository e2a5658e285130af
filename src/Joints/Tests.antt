-- ===== src/Joints/Tests.antt =====
-- The theorems on joints at the project of Samples.
use torq_pro.Prelude.{◌≡◌, ◌≢◌, refl, String, some, pos, ok, err}
use torq_pro.Governance.Samples.{json_text}
use torq_pro.Sqlite.{alone, fetch, is_bindable}
use torq_pro.Joints.Tables.{Revision, joint_key, revision_key, integrity_error}
use torq_pro.Joints.Service.{Answer}
use torq_pro.Joints.Creation.{create_joint_revision}
use torq_pro.Joints.Commands.{replay}
use torq_pro.Joints.Invariant.{IsSound}
use torq_pro.Joints.Runs.{replay-keeps_IsSound}
use torq_pro.Joints.History.{Continues, replay-Continues}
use torq_pro.Joints.Retries.{create-retry}
use torq_pro.Joints.Routes.{Post, post, post_approve, overflowed}
use torq_pro.Joints.Races.{create-caught}
use torq_pro.Joints.Projected.{stored_rows, project-stored}
use torq_pro.Revisions.Source.{Field}
use torq_pro.Revisions.Projection.{
  ProjectionOutcome, outcome_value, project_joint_revision, project_status,
}
use torq_pro.Revisions.Projection.Tables.{table_service}
use torq_pro.Joints.Samples.{
  clock, empty, empty-IsSound, revision_request, first_calls, later_calls, with_joint,
  with_joint-IsSound, first_revision, with_revision, with_revision-IsSound, racing,
}

created_runs :
    replay first_calls empty
    ≡ record with_joint { audit_log = (replay first_calls empty).audit_log }
unfolding replay
created_runs = refl

replay-keeps_IsSound_example : IsSound (replay first_calls empty)
replay-keeps_IsSound_example = replay-keeps_IsSound first_calls empty empty-IsSound

create-retry_example :
    (next : Revision String) × (create_joint_revision
        (alone clock)
        revision_request
        (replay later_calls (create_joint_revision (alone clock) revision_request with_joint).1)
      ≡ (
        ok (Answer.revision (some next)),
        replay later_calls (create_joint_revision (alone clock) revision_request with_joint).1,
      ))
    × Continues first_revision next
unfolding create_joint_revision
create-retry_example =
    create-retry revision_request "k1" clock clock later_calls with_joint first_revision
      with_joint-IsSound refl refl

create-caught_example :
    (create_joint_revision racing revision_request with_joint).0 ≢ err integrity_error
create-caught_example = create-caught revision_request "k1" refl racing with_joint

replay-Continues_example :
    (next : Revision String) × (fetch 1 (replay later_calls with_revision).revisions ≡ some next)
    × Continues first_revision next
unfolding fetch
replay-Continues_example =
    replay-Continues later_calls with_revision 1 first_revision with_revision-IsSound refl

unbindable_id :
    post (alone clock) 1 (Post.approve 9223372036854775808) with_revision
    ≡ (overflowed, with_revision)
unfolding post post_approve is_bindable
unbindable_id = refl

project-stored_example :
    (project_joint_revision (table_service (some (stored_rows with_revision))) (pos 1)
      ≡ project_status (pos 1) (Field.text "draft"))
    × ((project_status (pos 1) (Field.text "draft")).outcome
        ≡ outcome_value ProjectionOutcome.supported)
unfolding fetch
project-stored_example = project-stored with_revision 1 first_revision with_revision-IsSound refl
