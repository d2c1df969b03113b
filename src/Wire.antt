-- ===== src/Wire.antt =====
-- crates/raynet-core/src/wire.rs: the layouts of envelopes, endpoint messages and session messages.
pub mod Layout
pub mod Envelope
pub mod EndpointMessages
pub mod SessionMessages
mod Tests
