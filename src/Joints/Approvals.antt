-- ===== src/Joints/Approvals.antt =====
-- The review of a revision from its submission to its approval (backend/joints/service.py).
use torq_pro.Prelude.{string_eq, option_eq, nat_eq}
use torq_pro.Joints.Tables.{joint_key, revision_key}
use torq_pro.Joints.Service
