-- ===== src/Client.antt =====
-- src/client/mod.rs: the client's side of the protocol.
pub mod Reader
pub mod Writer
pub mod Init
pub mod Datagram
pub mod Udp
mod Tests
