-- ===== src/Session.antt =====
-- core/session and the headers of core/serialization: what a session sends and reads.
pub mod Header
pub mod Submessage
pub mod Info
pub mod Flush
pub mod Status
mod Tests
