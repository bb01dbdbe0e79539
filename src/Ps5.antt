-- ===== src/Ps5.antt =====
-- crates/ps5: the safe wrappers over the foreign functions.
pub mod Error
pub mod Display
pub mod Effect
pub mod Frame
pub mod Util
pub mod Net
pub mod Thread
pub mod Ownership
pub mod Http
pub mod Fs
