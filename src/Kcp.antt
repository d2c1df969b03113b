-- ===== src/Kcp.antt =====
-- crates/raynet-core/src/kcp: the reliable transport of one session.
pub mod Types
pub mod Codec
pub mod Receive
pub mod Send
pub mod Acks
pub mod Input
pub mod Schedule
pub mod Flush
pub mod Timer
pub mod Session
pub mod Samples
mod Tests
mod SendTests
