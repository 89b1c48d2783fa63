-- ===== src/Server.antt =====
-- src/server/: the server's side of a connection.
pub mod Auth
pub mod Connection
pub mod Udp
pub mod Listen
mod Tests
