-- ===== src/Packet.antt =====
-- src/packet.rs: from the bytes of a frame to a `Packet`.
pub mod Frame
pub mod Transport
pub mod Ip
mod Tests
