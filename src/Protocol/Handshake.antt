-- ===== src/Protocol/Handshake.antt =====
-- src/protocol/handshake/: the choice of an authentication method, and the password method.
pub mod AuthMethod
pub mod Request
pub mod Response
