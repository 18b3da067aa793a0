-- ===== src/World.antt =====
-- backend/src/world: the verification of the Ledger approver as a unique human by World ID.
pub mod Bindings
pub mod Sessions
pub mod Approver
pub mod Steps
pub mod Fresh
pub mod Machine
pub mod Unique
pub mod Nullifiers
pub mod Bound
pub mod Configuration
pub mod Selfie
