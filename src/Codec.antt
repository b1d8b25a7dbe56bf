-- ===== src/Codec.antt =====
-- crates/around-codec-wav and the engine's choice of a codec for a source.
pub mod Io
pub mod Bytes
pub mod Wav
pub mod Choose
pub mod Chosen
mod Tests
