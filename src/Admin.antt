-- ===== src/Admin.antt =====
-- src/modules/admin: what an administrator sees and changes.
pub mod Management
pub mod Statistics
