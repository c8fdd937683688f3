-- ===== src/Sharing.antt =====
-- src/core/sharing.rs: sharing of secrets.
pub mod Field
pub mod Inverse
pub mod Shares
pub mod Interpolate
pub mod Checked
pub mod Combine
pub mod Split
pub mod Envelope
pub mod Decode
