-- ===== src/Codec/Wav/RoundTrip.antt =====
-- crates/around-codec-wav/src/lib.rs: what `open` finds in a written WAV file.
use mathlib.Core.List.{append_assoc}
use around.Base.{
  ℕ, suc, ◌+◌, ◌*◌, ◌/◌, ◌<◌, ◌^◌, true, ltb, lt→ltb, List, ◌++◌, length, length-append, ok, ◌≡◌,
  refl, subst, ◌∙◌, arith,
}
use around.Base.Text.{compare_text}
use around.Codec.Bytes.{le_bytes}
use around.Codec.Io.{
  bridge, cursor, Cursor, seek_cb, seek_start, answered, non_negative, cursor_seek,
}
use around.Codec.Wav.Parser.{read_riff, read_size, read_wave}
use around.Codec.Wav.Header.{
  Chunks, no_chunks, header_of, chunk_body, read_chunks, read_magic, parse_header, fmt_id, data_id,
  riff_id, wave_id,
}
use around.Codec.Wav.Files.{Before, after, after-after, after-Before, read_bytes-Before}
use around.Codec.Wav.Written.{
  pad, pad_even, others, length-le_bytes, chunk-inside, chunk-Before, round-Before, skip_others,
}
use around.Codec.Wav.Stream.{open_wav, after_header, after_seek, to_i64, stream_of}
use around.Codec.Wav.Fmt.{Fmt, IsFmt, fmt_bytes, with_fmt, fmt_chunk-Before, length-fmt_bytes}
use around.Codec.Wav.File.{
  WavFile, IsWavFile, data_part, fmt_part, wav_bytes, written_header, found_header, rounds_of,
  file_of,
}

read_magic-Before :
    (size : ℕ) (rest : List ℕ) (c : Cursor)
    → Before c (riff_id ++ (le_bytes 4 size ++ (wave_id ++ rest)))
    → (read_magic (bridge cursor) c ≡ (ok tt, after 12 c)) × Before (after 12 c) rest
unfolding read_magic compare_text
read_magic-Before size rest c there =
    let at_size = after-Before riff_id _ 4 c refl there in
    let at_wave = after-Before (le_bytes 4 size) _ 4 (after 4 c) (length-le_bytes 4 size) at_size in
    let past = after-Before wave_id rest 4 (after 4 (after 4 c)) refl at_wave in
    (
      rw (read_bytes-Before riff_id _ 4 read_riff c refl (omega arith) there) (
          rw
            (read_bytes-Before (le_bytes 4 size) _ 4 read_size (after 4 c) (length-le_bytes 4 size)
              (omega arith) at_size)
            (rw
              (read_bytes-Before wave_id rest 4 read_wave (after 4 (after 4 c)) refl (omega arith)
                at_wave)
              (rw (after-after 4 4 c, after-after 8 4 c) refl))),
      subst (λ d. Before d rest) (after-after 8 4 c)
          (subst (λ d. Before (after 4 d) rest) (after-after 4 4 c) past),
    )

fmt-Before :
    (c : Cursor) (f : Fmt) (rest : List ℕ)
    → IsFmt f
    → Before c (fmt_id ++ (le_bytes 4 (16 + length f.extra) ++ (fmt_bytes f ++ (f.extra ++ rest))))
    → Before (after (16 + length f.extra) (after 8 c)) rest
fmt-Before c f rest w there =
    after-Before (fmt_bytes f ++ f.extra) rest (16 + length f.extra) (after 8 c)
      (omega (arith, length-append (fmt_bytes f) f.extra, length-fmt_bytes f w))
      (rw (append_assoc (fmt_bytes f) f.extra rest)
        (chunk-Before fmt_id (16 + length f.extra) (fmt_bytes f ++ (f.extra ++ rest)) c refl there))

-- The round at a `fmt ` chunk.
fmt_round :
    (fuel : ℕ) (h : Chunks) (c : Cursor) (f : Fmt) (rest : List ℕ)
    → IsFmt f
    → length c.bytes < 2 ^ 63
    → Before c (fmt_id ++ (le_bytes 4 (16 + length f.extra) ++ (fmt_bytes f ++ (f.extra ++ rest))))
    → read_chunks (bridge cursor) (suc fuel) h c
      ≡ read_chunks (bridge cursor) fuel (with_fmt f h) (after (16 + length f.extra) (after 8 c))
unfolding chunk_body compare_text
fmt_round fuel h c f rest w fits there =
    let at_body =
      chunk-Before fmt_id (16 + length f.extra) (fmt_bytes f ++ (f.extra ++ rest)) c refl there in
    let inside =
      chunk-inside fmt_id (16 + length f.extra) (fmt_bytes f ++ f.extra) rest c refl
        (rw (append_assoc (fmt_bytes f) f.extra rest) there) in
    let small : (after 8 c).at + (16 + length f.extra) < 2 ^ 63 =
      unfold after in (omega (arith, length-append (fmt_bytes f) f.extra, length-fmt_bytes f w)) in
    round-Before fuel h c fmt_id (16 + length f.extra) _ refl w.fits there
    ∙ rw (after-after 4 4 c) (rw (fmt_chunk-Before f w h (after 8 c) rest small at_body) refl)

-- The round at a `data` chunk ends the loop.
data_round :
    (fuel : ℕ) (h : Chunks) (c : Cursor) (samples tail : List ℕ)
    → length samples < 2 ^ 32
    → Before c (data_id ++ (le_bytes 4 (length samples) ++ (samples ++ tail)))
    → read_chunks (bridge cursor) (suc fuel) h c
      ≡ (ok (record h { data_start = 0; data_size = length samples; found_data = true }), after 8 c)
unfolding chunk_body compare_text
data_round fuel h c samples tail fits there =
    round-Before fuel h c data_id (length samples) (samples ++ tail) refl fits there
    ∙ rw (after-after 4 4 c) refl

some_bytes : (f : Fmt) → IsFmt f → ltb 0 (f.channels * (f.bit_depth / 8)) ≡ true
some_bytes f w =
    let channels : 0 < f.channels = ground (arith, w.channels_ok) in
    let per_sample : 0 < f.bit_depth / 8 = ground (arith, w.depth_ok) in
    let product : 0 < f.channels * (f.bit_depth / 8) = grind arith in
    lt→ltb 0 (f.channels * (f.bit_depth / 8)) product

-- The loop's variables at its end.
final : WavFile → Chunks
final f = record (with_fmt f.fmt no_chunks) {
  data_start = 0;
  data_size = length f.samples;
  found_data = true;
}

module _ (f : WavFile) (w : IsWavFile f) (fuel : ℕ) where
  chunks_read :
      (c : Cursor)
      → length c.bytes < 2 ^ 63
      → Before c (others f.first (fmt_part f))
      → (d : Cursor) × (read_chunks
            (bridge cursor)
            (length f.first + suc (length f.between + suc fuel))
            no_chunks
            c
          ≡ (ok (final f), d))
        × (d.bytes ≡ c.bytes)
  unfolding fmt_part data_part final
  chunks_read c fits there =
      let to_fmt =
        skip_others (suc (length f.between + suc fuel)) no_chunks c f.first (fmt_part f) fits
          w.first_ok there in
      let at_fmt =
        subst
          (λ more. Before to_fmt.at (
            fmt_id
            ++ (le_bytes 4 (16 + length f.fmt.extra)
                ++ (fmt_bytes f.fmt ++ (f.fmt.extra ++ more)))))
          (pad_even (length f.fmt.extra) (others f.between (data_part f)) w.fmt_ok.even)
          to_fmt.before in
      let a = to_fmt.at in
      let len = 16 + length f.fmt.extra in
      let fits_a : length a.bytes < 2 ^ 63 = rw (to_fmt.same_file) fits in
      let next = others f.between (data_part f) in
      let fmt_read =
        fmt_round (length f.between + suc fuel) no_chunks a f.fmt next w.fmt_ok fits_a at_fmt in
      let b = after len (after 8 a) in
      let to_data =
        skip_others (suc fuel) (with_fmt f.fmt no_chunks) b f.between (data_part f)
          (unfold after in fits_a) w.between_ok (fmt-Before a f.fmt next w.fmt_ok at_fmt) in
      let read =
        data_round fuel (with_fmt f.fmt no_chunks) to_data.at f.samples
          (pad (length f.samples) f.tail) w.samples_fit to_data.before in
      (
        after 8 to_data.at,
        to_fmt.skipped ∙ fmt_read ∙ to_data.skipped ∙ read,
        unfold after in (to_data.same_file ∙ to_fmt.same_file),
      )

  parse_header-wav_bytes :
      length (wav_bytes f) < 2 ^ 63
      → (d : Cursor) × (parse_header (bridge cursor) (rounds_of f fuel) (file_of f)
          ≡ (ok (found_header f), d))
        × (d.bytes ≡ wav_bytes f)
  unfolding parse_header wav_bytes
  parse_header-wav_bytes fits =
      let magic = read_magic-Before f.riff_size (others f.first (fmt_part f)) (file_of f) refl in
      let chunks = chunks_read (after 12 (file_of f)) (unfold after in fits) magic.1 in
      (
        chunks.0,
        rw (magic.0) (
            rw (chunks.1)
              (unfold final header_of written_header in (rw (some_bytes f.fmt w.fmt_ok) refl))),
        unfold after in (chunks.2),
      )

  -- `open` on the bytes of a WAV file whose chunks before the samples have even lengths answers the
  -- header that the file states, except that it takes the samples to begin at the file's first byte:
  -- the other chunks, the bytes past sixteen of the `fmt ` chunk and what follows the samples change
  -- nothing. The reader is left at that first byte.
  pub open_wav-wav_bytes :
      length (wav_bytes f) < 2 ^ 63
      → open_wav (bridge cursor) (rounds_of f fuel) (file_of f)
        ≡ (ok (stream_of (found_header f)), (file_of f))
  unfolding open_wav after_header after_seek to_i64 written_header seek_cb seek_start answered
      non_negative cursor_seek
  open_wav-wav_bytes fits =
      let parsed = parse_header-wav_bytes fits in rw (parsed.1) (rw (parsed.2) refl)
