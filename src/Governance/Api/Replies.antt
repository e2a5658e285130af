-- ===== src/Governance/Api/Replies.antt =====
-- What `_run_command` answers, and which exceptions it lets by (backend/governance/api.py).
use torq_pro.Governance.Enums.{review_eq, publication_eq, resolution_eq}
