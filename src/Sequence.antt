-- ===== src/Sequence.antt =====
-- crates/raynet-core/src/sequence.rs: freshness of packets and protection against replay.
pub mod Time
pub mod Window
pub mod Filter
mod Tests
