-- ===== src/Joints/Replies.antt =====
-- The replies of the joint routes (backend/api/routes/joints.py over backend/joints/service.py).
use torq_pro.Prelude.{string_eq, option_eq, nat_eq}
use torq_pro.Joints.Tables.{joint_key, revision_key}
