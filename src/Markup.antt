-- ===== src/Markup.antt =====
-- Reply markups: the specifications that a payload carries (native/src/payload.rs), the markups that
-- they build (native/src/ops/markup.rs), and the documents that a markup is projected to
-- (native/src/dto/markup.rs).
pub mod Text
pub mod Specs
pub mod Layer
pub mod Grammers
pub mod Build
pub mod Documents
pub mod Contract
pub mod Faults
pub mod Refinement
pub mod Sendable
pub mod Handlers
mod Examples
