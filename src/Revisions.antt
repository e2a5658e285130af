-- ===== src/Revisions.antt =====
-- The governance view of joint revisions (backend/governance/adapters/joint_revision.py and
-- backend/governance/joint_revision_query.py).
pub mod Sorting
pub mod Source
pub mod Projection
pub mod Query
pub mod Texts
pub mod Arguments
pub mod Selection
pub mod Pages
pub mod Export
pub mod Routes
pub mod Samples
mod Tests
