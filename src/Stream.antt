-- ===== src/Stream.antt =====
-- One direction of a TCP connection, of src/engine.rs: reassembly and the hash of a body.
pub mod Tap
pub mod Half
pub mod FlowKey
mod Tests
