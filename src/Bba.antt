-- ===== src/Bba.antt =====
-- bba/: binary Byzantine agreement.
pub mod BinarySet
pub mod Request
pub mod State
pub mod Local
pub mod Handlers
pub mod Run
pub mod Rules
pub mod Keeps
pub mod Quorum
pub mod Decision
pub mod Provenance
pub mod Transport
pub mod Repeats
pub mod Support
pub mod Network
mod Samples
mod Tests
