-- ===== src/Core.antt =====
-- The parts that all modules of the program share: app/core.
pub mod Errors
pub mod Middleware
pub mod Pagination
pub mod Money
pub mod Auth
pub mod Json
