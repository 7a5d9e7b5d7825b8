-- ===== src/Entities.antt =====
-- The rows of the database tables (src/database/entities), one record for each entity class.
pub mod Scalars
pub mod Library
pub mod Billing
pub mod Accounts
pub mod Uploads
pub mod Shares
