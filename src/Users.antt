-- ===== src/Users.antt =====
-- src/modules/users: accounts, their security parameters, and their deletion.
pub mod Service
