-- ===== src/Codec/Wav.antt =====
-- crates/around-codec-wav/src/lib.rs: the state of a WAV stream.
pub mod Parser
pub mod Header
pub mod Samples
pub mod Stream
pub mod Terminates
pub mod Files
pub mod Written
pub mod Fmt
pub mod File
pub mod RoundTrip
pub mod Decoding
pub mod Reading
pub mod Opening
pub mod Seeking
use around.Base.{ℕ}

-- `WavStream` without its callbacks, which are passed beside it, and without the buffer for one
-- frame's bytes, which is written before it is read.
pub record WavStream : Type 0 where
  pub channels : ℕ
  pub bit_depth : ℕ
  pub data_start : ℕ
  pub bytes_per_frame : ℕ
  pub total_frames : ℕ
  pub position : ℕ

-- The stream that `parse_header` reads through.
abbrev pub tmp : WavStream
tmp = record {
  channels = 0;
  bit_depth = 0;
  data_start = 0;
  bytes_per_frame = 0;
  total_frames = 0;
  position = 0;
}
