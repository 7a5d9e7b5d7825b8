-- ===== src/Folders.antt =====
-- src/modules/folders: the folder tree of each user.
pub mod Store
pub mod Service
pub mod Chains
pub mod Tree
pub mod Saves
pub mod Moves
pub mod Creation
pub mod Depth
pub mod Search
pub mod Descendants
pub mod Trash
pub mod Restore
pub mod RestoredTree
pub mod Purge
pub mod Samples
pub mod Views
mod Tests
