-- ===== src/Validation.antt =====
-- src/core/validation.rs: the checks that every boundary of the program applies to text.
pub mod Chars
pub mod Fields
pub mod Split
pub mod Aad
pub mod Envelope
pub mod Hosts
pub mod Sealed
