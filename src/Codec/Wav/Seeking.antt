-- ===== src/Codec/Wav/Seeking.antt =====
-- crates/around-codec-wav/src/lib.rs: where `seek` moves a stream over a file in memory.
use around.Base.{ℕ, ◌+◌, ◌-◌, ◌*◌, ◌%◌, ◌≤◌, ◌<◌, ◌^◌, min, lt→ltb, ◌≡◌, refl, arith}
use around.Base.Int.{pos}
use around.Codec.Io.{
  bridge, cursor, Cursor, seek_cb, seek_start, answered, non_negative, cursor_seek,
}
use around.Codec.Wav.{WavStream}
use around.Codec.Wav.Stream.{seek, after_move, clamp_frame, to_i64}

module _ (s : WavStream) (frame : ℕ) (c : Cursor) where
  -- A seek in a stream of known length whose samples fit in 63 bits goes to the wanted frame, or to the
  -- last frame where the wanted one is past the end. It answers that frame, keeps it as the position
  -- and puts the reader that many frames after the samples' place.
  pub seek_lands :
      0 < s.total_frames
      → s.data_start + s.total_frames * s.bytes_per_frame < 2 ^ 63
      → s.total_frames ≤ 2 ^ 32
      → let target = min frame (s.total_frames - 1) in
        seek (bridge cursor) s frame c ≡ (
          pos target,
          record s { position = target },
          record c { at = s.data_start + target * s.bytes_per_frame },
        )
  unfolding seek after_move clamp_frame to_i64 seek_cb seek_start answered non_negative cursor_seek
  seek_lands known fits few =
      let target : ℕ = min frame (s.total_frames - 1) in
      let below : target < s.total_frames = omega (arith, known) in
      let within : s.data_start + target * s.bytes_per_frame < 2 ^ 63 = grind arith in
      let same : (s.data_start + target * s.bytes_per_frame % 2 ^ 64) % 2 ^ 64
          ≡ s.data_start + target * s.bytes_per_frame =
        grind arith in
      let small : target < 2 ^ 63 = omega (arith, few) in
      rw (lt→ltb 0 s.total_frames known) (
        rw same (
          rw (lt→ltb _ (2 ^ 63) within)
            (rw (lt→ltb _ (2 ^ 63) within) (rw (lt→ltb _ (2 ^ 63) small) refl))))
