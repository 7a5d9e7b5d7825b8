-- ===== src/Uploads.antt =====
-- src/modules/uploads: chunked uploads to the object store.
pub mod Store
pub mod Service
pub mod Quota
pub mod Usage
pub mod Parts
pub mod Sessions
pub mod Changes
pub mod Reached
mod Tests
