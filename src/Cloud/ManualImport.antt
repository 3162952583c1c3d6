-- ===== src/Cloud/ManualImport.antt =====
-- The nodes that the user enters: frontend/src/stores/cloud/manualImport.ts, with the types of
-- frontend/src/stores/cloud/types.ts. The refs of the store are the record `ManualStore`; the calls
-- act on the rest of the world, so no other handler runs while one of these waits.
mod Types
mod Store
mod Handlers
pub mod Create
pub mod Sync
pub mod Unique
pub mod Add
pub mod Adding
pub mod Update
pub mod Updating
mod Tests
unfoldable pub use Types.*
unfoldable pub use Store.*
unfoldable pub use Handlers.*
