-- ===== src/Acs.antt =====
-- acs/: the common subset. It owns one broadcast and one binary agreement for each member, behind
-- the interfaces `RBC` and `BBA`, as in the source.
pub mod State
pub mod Handlers
pub mod Run
pub mod Batch
pub mod Completion
pub mod Rules
pub mod Keeps
pub mod History
pub mod Final
pub mod Members
pub mod Instances
mod Tests
