-- ===== src/Keys.antt =====
-- src/ops/keys.rs: operational keys.
pub mod Id
pub mod Lifecycle
pub mod State
pub mod Transitions
pub mod Refine
pub mod Store
pub mod Run
pub mod Load
pub mod Record
pub mod Open
pub mod Resolve
pub mod Policy
pub mod Sealing
pub mod Created
pub mod Parts
pub mod RoundTrip
pub mod Update
pub mod Updated
pub mod Joins
pub mod Loading
pub mod Complete
