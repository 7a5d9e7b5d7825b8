-- ===== src/Otp.antt =====
-- src/modules/otp: one-time passwords.
pub mod Service
pub mod Guesses
pub mod Acceptance
mod Tests
