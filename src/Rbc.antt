-- ===== src/Rbc.antt =====
-- rbc/: reliable broadcast of a value by erasure coding and Merkle paths.
pub mod Merkle
pub mod State
pub mod Decode
pub mod Handlers
pub mod Input
pub mod Shards
pub mod Requests
pub mod Roundtrip
pub mod Network
pub mod Rules
pub mod Run
pub mod Keeps
pub mod Once
pub mod Length
pub mod Output
mod Samples
mod Tests
