-- ===== src/Decode.antt =====
-- src/decode.rs: link types, fragment reassembly, tunnels, and the decoder of one capture.
pub mod Stats
pub mod Link
pub mod Fragments
pub mod Tunnel
pub mod Decoder
mod Tests
