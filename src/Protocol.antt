-- ===== src/Protocol.antt =====
-- src/protocol/mod.rs: the messages of the protocol, and the traits by which they are read from
-- and written to streams.
pub mod Operation
pub mod Code
pub mod Version
pub mod Command
pub mod Reply
pub mod AddressType
pub mod Address
pub mod Request
pub mod Response
pub mod Udp
pub mod Handshake
pub mod Password
pub mod RoundTrips
pub mod Codes
pub mod Negotiation
pub mod Truncation
mod Tests
