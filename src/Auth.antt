-- ===== src/Auth.antt =====
-- src/modules/auth: sessions of users.
pub mod Service
pub mod Validators
pub mod Abuse
pub mod Addresses
pub mod Reset
pub mod Registration
pub mod Rotation
pub mod Outcomes
pub mod Recovered
pub mod Reuse
mod Tests
