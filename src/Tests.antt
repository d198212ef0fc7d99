-- ===== src/Tests.antt =====
-- The theorems applied to concrete databases and requests.
pub mod Data
mod Wallets
mod Fundings
mod Payments
mod Requests
mod Cards
mod Callbacks
mod Approvals
mod Tasks
mod Identities
mod Initiations
mod Cores
mod Routes
mod Endpoints
