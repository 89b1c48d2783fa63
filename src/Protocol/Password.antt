-- ===== src/Protocol/Password.antt =====
-- src/protocol/handshake/password_method/mod.rs: the sub-negotiation of a user name and a password.
pub mod UserKey
pub mod Status
pub mod Request
pub mod Response
