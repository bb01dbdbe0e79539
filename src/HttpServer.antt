-- ===== src/HttpServer.antt =====
-- crates/core/src/http.rs: the HTTP/1.1 server.
pub mod Request
pub mod Response
pub mod Head
pub mod Read
pub mod Connection
pub mod Server
