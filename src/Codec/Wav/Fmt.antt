-- ===== src/Codec/Wav/Fmt.antt =====
-- crates/around-codec-wav/src/lib.rs: the `fmt ` chunk that is read back from its bytes.
use around.Base.{
  ℕ, ◌+◌, ◌-◌, ◌%◌, ◌≤◌, ◌<◌, ◌^◌, min, true, ltb, List, ◌++◌, length, ok, ◌≡◌, refl, arith, inl,
  inr, Bool-cases,
}
use around.Codec.Bytes.{le_bytes, u16_at, u32_at}
use around.Codec.Io.{bridge, cursor, Cursor}
use around.Codec.Wav.Parser.{read_fmt, skip_fmt}
use around.Codec.Wav.Header.{Chunks, fmt_chunk, skip_extra, is_depth, is_channels}
use around.Codec.Wav.Files.{Before, after, after-after, read_bytes-Before, skip-Before, filled_self}

-- A `fmt ` chunk: PCM, with bytes after the sixteen that every such chunk has.
pub record Fmt : Type 0 where
  pub channels : ℕ
  pub sample_rate : ℕ
  pub byte_rate : ℕ
  pub block_align : ℕ
  pub bit_depth : ℕ
  pub extra : List ℕ

pub record IsFmt (f : Fmt) : Type 0 where
  pub channels_ok : is_channels f.channels ≡ true
  pub depth_ok : is_depth f.bit_depth ≡ true
  pub rate_fits : f.sample_rate < 2 ^ 32
  pub fits : 16 + length f.extra < 2 ^ 32
  pub even : length f.extra % 2 ≡ 0

-- Its first sixteen bytes.
unfoldable pub fmt_bytes : Fmt → List ℕ
unfolding le_bytes
fmt_bytes f =
    le_bytes 2 1
    ++ (le_bytes 2 f.channels
        ++ (le_bytes 4 f.sample_rate
            ++ (le_bytes 4 f.byte_rate ++ (le_bytes 2 f.block_align ++ le_bytes 2 f.bit_depth))))

-- The loop's variables after the chunk.
abbrev pub with_fmt : Fmt → Chunks → Chunks
with_fmt f h = record h {
  channels = f.channels;
  sample_rate = f.sample_rate;
  bit_depth = f.bit_depth;
  found_fmt = true;
}

module _ (f : Fmt) (w : IsFmt f) where
  pub small_channels : f.channels ≤ 8
  small_channels = ground (arith, w.channels_ok)

  pub small_depth : f.bit_depth ≤ 32
  small_depth = ground (arith, w.depth_ok)

  format_at : u16_at 0 (fmt_bytes f) ≡ 1
  unfolding u16_at fmt_bytes
  format_at = refl

  channels_at : u16_at 2 (fmt_bytes f) % 256 ≡ f.channels
  unfolding u16_at fmt_bytes
  channels_at = omega (arith, small_channels)

  rate_at : u32_at 4 (fmt_bytes f) ≡ f.sample_rate
  unfolding u16_at u32_at fmt_bytes
  rate_at = omega (arith, w.rate_fits)

  depth_at : u16_at 14 (fmt_bytes f) % 256 ≡ f.bit_depth
  unfolding u16_at fmt_bytes
  depth_at = omega (arith, small_depth)

  pub length-fmt_bytes : length (fmt_bytes f) ≡ 16
  unfolding fmt_bytes
  length-fmt_bytes = refl

  skip_extra-Before :
      (c : Cursor)
      → c.at + length f.extra < 2 ^ 63
      → skip_extra (bridge cursor) (16 + length f.extra) c ≡ (ok tt, after (length f.extra) c)
  unfolding skip_extra
  skip_extra-Before c small = elim (Bool-cases (ltb 16 (16 + length f.extra))) [
    | inl longer ↦ rw longer (
        let e : 16 + length f.extra - 16 ≡ length f.extra = omega arith in
        rw e (skip-Before (length f.extra) skip_fmt c small))
    | inr short ↦
        rw short
          (let e : length f.extra ≡ 0 = ground arith in rw e (unfold after in (ground arith)))
  ]

  pub fmt_chunk-Before :
      (h : Chunks) (c : Cursor) (rest : List ℕ)
      → c.at + (16 + length f.extra) < 2 ^ 63
      → Before c (fmt_bytes f ++ (f.extra ++ rest))
      → fmt_chunk (bridge cursor) (16 + length f.extra) h c
        ≡ (ok (with_fmt f h), after (16 + length f.extra) c)
  unfolding fmt_chunk
  fmt_chunk-Before h c rest small there =
      let e : min (16 + length f.extra) 16 ≡ 16 = omega arith in
      rw e (
        rw
          (read_bytes-Before (fmt_bytes f) (f.extra ++ rest) 16 read_fmt c length-fmt_bytes
            (omega arith) there)
          (rw (filled_self 16 (fmt_bytes f) length-fmt_bytes) (
            rw (format_at, channels_at, depth_at)
              (rw (w.depth_ok, w.channels_ok)
                (rw (skip_extra-Before (after 16 c) (unfold after in (omega arith)))
                  (rw (rate_at, after-after 16 (length f.extra) c) refl))))))
