-- ===== src/Identity.antt =====
-- The users, their KYC status, and the links of sponsors and beneficiaries (app/modules/identity).
pub mod Models
pub mod Repository
pub mod Service
pub mod Links
pub mod Accounts
pub mod Roles
pub mod Middleware
pub mod Routes
