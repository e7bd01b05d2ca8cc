-- ===== src/Domain.antt =====
-- The entities of internal/domain with their validation: plain data, and functions of it.
pub mod Errors
pub mod Account
pub mod Password
pub mod Event
pub mod Alert
pub mod Monitor
pub mod Status
pub mod Overall
pub mod Strength
