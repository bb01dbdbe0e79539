-- ===== src/Ps5/Net.antt =====
-- crates/ps5/src/net.rs: TCP and UDP sockets, a module for each type.
pub mod Address
pub mod Laws
pub mod Fd
pub mod Stream
pub mod Listener
pub mod Udp
pub mod Sockets
pub mod Lookup
