-- ===== src/Wallet.antt =====
-- The wallet module: app/modules/wallet.
pub mod Models
pub mod Events
pub mod Repository
pub mod Service
pub mod Outcomes
pub mod Funding
pub mod Ledger
pub mod Books
pub mod Solvency
pub mod Operations
pub mod Callback
pub mod PaymentRecords
pub mod Tasks
pub mod ConnectionRecords
pub mod Connections
pub mod Rates
pub mod Initiation
pub mod Routes
pub mod Webhooks
pub mod Aggregators
pub mod Handlers
