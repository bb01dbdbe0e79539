-- ===== src/Ps5/Thread.antt =====
-- crates/ps5/src/thread.rs.
pub mod Create
pub mod HandOver
pub mod Join
pub mod Joined
pub mod Sync
pub mod Guards
pub mod Slot
pub mod Once
pub mod Exclusion
pub mod Alone
pub mod Enters
