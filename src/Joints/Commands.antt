-- ===== src/Joints/Commands.antt =====
-- The operations of the joint service that write, as a type of commands
-- (backend/joints/service.py).
use torq_pro.Prelude.{ℕ, Option, List, [], ◌∷◌, String}
use torq_pro.Governance.Events.{Metadata}
use torq_pro.Sqlite.{alone}
use torq_pro.Joints.Tables.{Db}
use torq_pro.Joints.Service
use torq_pro.Joints.Service.{World, Reply, JointRequest, RevisionRequest}
use torq_pro.Joints.Creation

pub data Command (M : Type 0) : Type 0 where
  create_joint : JointRequest → Command M
  create_joint_revision : RevisionRequest M → Command M
  archive_joint submit_joint_revision approve_joint_revision reject_joint_revision :
      ℕ → Option ℕ → Command M

module _ {M : Type 0} ⦃meta : Metadata M⦄ where
  unfoldable pub run : World M → Command M → Db M → Reply M
  unfolding Service.create_joint Creation.create_joint_revision Service.archive_joint
      Service.submit_joint_revision Service.approve_joint_revision Service.reject_joint_revision
  run w (create_joint r) db = Service.create_joint w r db
  run w (create_joint_revision r) db = Creation.create_joint_revision w r db
  run w (archive_joint joint_id actor_id) db = Service.archive_joint w joint_id actor_id db
  run w (submit_joint_revision revision_id actor_id) db =
      Service.submit_joint_revision w revision_id actor_id db
  run w (approve_joint_revision revision_id actor_id) db =
      Service.approve_joint_revision w revision_id actor_id db
  run w (reject_joint_revision revision_id actor_id) db =
      Service.reject_joint_revision w revision_id actor_id db

  -- Calls one after the other, each with its own readings of the clock.
  unfoldable pub replay : List ((ℕ → String) × Command M) → Db M → Db M
  unfolding run
  replay [] db = db
  replay ((now, c) ∷ cs) db = replay cs (run (alone now) c db).1
