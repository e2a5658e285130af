-- ===== src/Governance/Decisions.antt =====
-- The decision models of the three lifecycles, their required fields, and their validation
-- (backend/governance/models.py).
mod Models
mod Required
unfoldable pub use Models.*
unfoldable pub use Required.*
