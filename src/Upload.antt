-- ===== src/Upload.antt =====
-- The upload plumbing: native/src/upload.rs (`ChannelReader`, `ProgressReader`, `UploadProgress`),
-- the `UploadRegistry` and stream methods of native/src/client.rs, and the upload handlers of
-- native/src/ops/files.rs.
pub mod Channel
pub mod Progress
pub mod Reader
pub mod Reading
pub mod Delivery
pub mod Registry
pub mod Stream
mod Examples
