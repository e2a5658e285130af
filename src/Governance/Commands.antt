-- ===== src/Governance/Commands.antt =====
-- The nine transition commands (backend/governance/service.py). Each fixes its lifecycle group and
-- its new status, and its closure `_validate` builds the group's decision for the effective status
-- that it is given.
mod Review
mod Publication
mod Resolution
mod Args
pub use Args.{Arguments}
unfoldable pub use Review.*
unfoldable pub use Publication.*
unfoldable pub use Resolution.*
