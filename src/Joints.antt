-- ===== src/Joints.antt =====
-- Joints and their revisions (backend/joints/service.py, backend/api/routes/joints.py).
pub mod Tables
pub mod Service
pub mod Creation
pub mod Commands
pub mod Changes
pub mod Invariant
pub mod Updates
pub mod Soundness
pub mod Additions
pub mod Runs
pub mod History
pub mod Approvals
pub mod Retries
pub mod Projected
pub mod Routes
pub mod Outcomes
pub mod Replies
pub mod Races
pub mod Samples
pub mod Tests
