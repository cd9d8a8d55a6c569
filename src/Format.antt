-- ===== src/Format.antt =====
-- Formatted texts: the entities of a message as the layer has them, as documents
-- (native/src/dto/message.rs) and as the payloads of a send carry them (native/src/payload.rs).
pub mod Lowercase
pub mod Layer
pub mod Specs
pub mod Documents
pub mod Resend
mod Examples
