-- ===== src/Files.antt =====
-- Reading files back (native/src/ops/files.rs): the chunks of a download and the pages of a peer's profile
-- photos.
pub mod Chunks
pub mod Photos
pub mod Documents
pub mod Reassembled
pub mod Paged
mod Examples
