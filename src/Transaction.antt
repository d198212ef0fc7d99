-- ===== src/Transaction.antt =====
-- The transaction module: app/modules/transaction.
pub mod Models
pub mod Repository
pub mod Service
pub mod Holds
pub mod Safety
pub mod Backing
pub mod Approval
pub mod Settling
pub mod Cover
pub mod Payable
pub mod Routes
