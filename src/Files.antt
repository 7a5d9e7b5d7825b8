-- ===== src/Files.antt =====
-- src/modules/files: the files of a user, their trash, and the storage that they take.
pub mod Store
pub mod Service
pub mod Reads
pub mod Newest
pub mod Trash
pub mod Cleanup
pub mod Objects
pub mod Safety
pub mod Restoring
pub mod Losing
pub mod Retention
pub mod Views
mod Tests
pub mod Samples
