-- ===== src/Account.antt =====
-- The account operations of native/src/ops/account.rs and their documents in native/src/dto/account.rs
-- and native/src/dto/notifications.rs: privacy rules, notification settings, sessions and the password.
pub mod Layer
pub mod Privacy
pub mod Notify
pub mod Sessions
pub mod WrittenBack
mod Examples
