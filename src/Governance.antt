-- ===== src/Governance.antt =====
-- The engineering governance package (backend/governance).
pub mod Enums
pub mod Errors
pub mod Transitions
pub mod Timestamps
pub mod Decisions
pub mod Events
pub mod Contract
pub mod File
pub mod Requests
pub mod Service
pub mod Commands
pub mod Api
pub mod Samples
mod Tests
mod ReadTests
