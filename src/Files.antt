-- ===== src/Files.antt =====
-- Bodies of src/files.rs: the chunked decoder and the running digest.
pub mod Chunked
pub mod Magic
pub mod Hasher
mod Tests
