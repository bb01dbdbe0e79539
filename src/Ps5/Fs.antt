-- ===== src/Ps5/Fs.antt =====
-- crates/ps5/src/fs.rs.
pub mod File
pub mod Options
pub mod Dir
pub mod Paths
pub mod Runs
pub mod Laws
pub mod Opening
pub mod Writing
pub mod Saved
pub mod Reading
pub mod Loaded
pub mod Names
pub mod Listing
