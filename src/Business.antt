-- ===== src/Business.antt =====
-- Package business (internal/application/business).
pub mod Types
pub mod Slots
pub mod Checks
pub mod Dates
pub mod Service
