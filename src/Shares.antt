-- ===== src/Shares.antt =====
-- src/modules/shares: public links to files and folders.
pub mod Store
pub mod Slugs
pub mod Service
pub mod Copies
pub mod Normal
pub mod Unused
pub mod Ancestors
pub mod Browsing
pub mod Creating
mod Tests
pub mod Foreign
