-- ===== src/Card.antt =====
-- The card module: app/modules/card.
pub mod Models
pub mod Repository
pub mod Service
pub mod Lifecycle
pub mod Audit
pub mod Rows
pub mod Routes
