-- ===== src/Example.antt =====
-- examples/s5-server.rs: the example server.
pub mod Handle
pub mod Relay
pub mod Main
pub mod Echo
pub mod Dns
pub mod Query
pub mod Demo
pub mod UdpClient
pub mod DemoClient
mod Tests
