-- ===== src/Protocol.antt =====
-- protocol.rs and protocol/errcodes.rs: the PostgreSQL frontend/backend protocol.
mod Tests
pub mod Errcodes
pub mod Message
pub mod Serialize
pub mod Read
pub mod Startup
