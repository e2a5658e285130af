-- ===== src/Validation.antt =====
-- Production validation: studies, datasets and measurements (backend/production_validation).
pub mod Tables
pub mod Rules
pub mod Studies
pub mod Creation
pub mod Reviews
pub mod Datasets
pub mod Measurements
pub mod Commands
pub mod Caught
pub mod Completion
pub mod Inserted
pub mod Routes
pub mod Replies
pub mod Samples
pub mod Tests
