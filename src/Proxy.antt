-- ===== src/Proxy.antt =====
-- core/rust/src/proxy.rs: one connection, from the PROXY header on.
pub mod Stream
pub mod Header
pub mod Handshake
pub mod Client
pub mod Forward
pub mod Tasks
pub mod WholeRelay
mod Tests
