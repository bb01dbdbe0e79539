-- ===== src/Std.antt =====
-- The functions of Rust's standard library that the crates call on texts, on the bytes that a
-- `str` is.
pub mod Text
pub mod Split
pub mod Trim
pub mod Number
pub mod Utf8
pub mod Hex
pub mod Quote
