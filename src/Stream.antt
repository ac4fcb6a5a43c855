-- ===== src/Stream.antt =====
-- src/c/core/session/stream: the buffers of messages that a session keeps for each stream.
mod Tests
pub mod ReliableBuffer
pub mod BestEffort
pub mod InputReliable
pub mod OutputReliable
pub mod Storage
