-- ===== src/Chatlists.antt =====
-- The sharing of folders (native/src/ops/chatlists.rs, native/src/dto/chatlists.rs).
pub mod Objects
pub mod Layer
pub mod Slug
pub mod Slugs
pub mod Readings
pub mod Documents
pub mod Handlers
mod Examples
