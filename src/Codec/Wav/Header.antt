-- ===== src/Codec/Wav/Header.antt =====
-- crates/around-codec-wav/src/lib.rs: `WavStream::parse_header`.
-- The loop over the chunks has fuel for its rounds; `Terminates` shows how much is enough.
use around.Base.{
  ℕ, zero, suc, ◌-◌, ◌*◌, ◌/◌, ◌%◌, min, Bool, true, false, not, ◌||◌, ◌&&◌, ltb, leb, ◌==◌,
  if◌then◌else◌, Option, none, some, List, [], ◌∷◌, length, Result, ok, err,
}
use around.Base.Text.{Text, text_eq}
use around.Codec.Bytes.{u16_at, u32_at}
use around.Codec.Io.{Reader}
use around.Codec.Wav.{tmp}
use around.Codec.Wav.Parser.{
  HeaderError, Parser, ◌>>=◌, ◌>>◌, return, demand, filled, read_bytes, skip, read_riff, not_riff,
  read_size, read_wave, not_wave, read_chunk_len, read_fmt, skip_fmt, skip_chunk,
  unsupported_format, unsupported_bit_depth, unsupported_channels, no_fmt, no_data, out_of_fuel,
}

abbrev pub riff_id : Text
riff_id = b'R' ∷ b'I' ∷ b'F' ∷ b'F' ∷ []

abbrev pub wave_id : Text
wave_id = b'W' ∷ b'A' ∷ b'V' ∷ b'E' ∷ []

abbrev pub fmt_id : Text
fmt_id = b'f' ∷ b'm' ∷ b't' ∷ b' ' ∷ []

abbrev pub data_id : Text
data_id = b'd' ∷ b'a' ∷ b't' ∷ b'a' ∷ []

-- The variables of the loop.
pub record Chunks : Type 0 where
  pub sample_rate : ℕ
  pub channels : ℕ
  pub bit_depth : ℕ
  pub data_start : ℕ
  pub data_size : ℕ
  pub found_fmt : Bool
  pub found_data : Bool

abbrev pub no_chunks : Chunks
no_chunks = record {
  sample_rate = 0;
  channels = 0;
  bit_depth = 0;
  data_start = 0;
  data_size = 0;
  found_fmt = false;
  found_data = false;
}

-- `[8, 16, 24, 32].contains(&bit_depth)`
abbrev pub is_depth : ℕ → Bool
is_depth d = d == 8 || d == 16 || d == 24 || d == 32

-- `!(channels == 0 || channels > 8)`
abbrev pub is_channels : ℕ → Bool
is_channels n = not (n == 0) && leb n 8

module _ (r : Reader) where
  -- The rest of a `fmt ` chunk that is longer than 16 bytes is skipped.
  unfoldable pub skip_extra : ℕ → Parser r.Context (Unit {0})
  skip_extra chunk_len = if ltb 16 chunk_len then skip r (chunk_len - 16) skip_fmt else return tt

  unfoldable pub fmt_chunk : ℕ → Chunks → Parser r.Context Chunks
  unfolding skip_extra
  fmt_chunk chunk_len h = do
    part ← read_bytes r (min chunk_len 16) read_fmt
    let buf = filled 16 part
    let format = u16_at 0 buf
    let channels = u16_at 2 buf % 256
    let depth = u16_at 14 buf % 256
    demand (format == 1) (unsupported_format format)
    demand (is_depth depth) (unsupported_bit_depth depth)
    demand (is_channels channels) (unsupported_channels channels)
    skip_extra chunk_len
    return (record h {
      channels = channels;
      sample_rate = u32_at 4 buf;
      bit_depth = depth;
      found_fmt = true;
    })

  -- One chunk: `data` ends the loop, after any other `later` goes on.
  unfoldable pub chunk_body :
      (Chunks → Parser r.Context Chunks) → Text → ℕ → Chunks → Parser r.Context Chunks
  chunk_body later id chunk_len h =
      if text_eq id fmt_id
      then (fmt_chunk chunk_len h >>= later)
      else if text_eq id data_id
      then return (record h { data_start = tmp.position; data_size = chunk_len; found_data = true })
      else (skip r chunk_len skip_chunk >> later h)

  unfoldable pub one_chunk :
      (Chunks → Parser r.Context Chunks) → Text → Chunks → Parser r.Context Chunks
  one_chunk later id h = do
    len_buf ← read_bytes r 4 read_chunk_len
    chunk_body later id (u32_at 0 len_buf) h

  -- A chunk's id that cannot be read whole ends the loop without an error.
  unfoldable pub after_id :
      (Chunks → Parser r.Context Chunks)
      → Chunks
      → Option (List ℕ) × r.Context
      → Result HeaderError Chunks × r.Context
  after_id later h (none, c) = (ok h, c)
  after_id later h (some id, c) =
      if length id == 4 then one_chunk later (filled 4 id) h c else (ok h, c)

  unfoldable pub read_chunks : ℕ → Chunks → Parser r.Context Chunks
  read_chunks zero h c = (err out_of_fuel, c)
  read_chunks (suc fuel) h c = after_id (read_chunks fuel) h (r.read 4 c)

-- What `parse_header` answers.
pub record Header : Type 0 where
  pub sample_rate : ℕ
  pub channels : ℕ
  pub bit_depth : ℕ
  pub data_start : ℕ
  pub bytes_per_frame : ℕ
  pub total_frames : ℕ

-- `data_size / bytes_per_frame`, if there are frames.
abbrev pub frames_in : ℕ → ℕ → ℕ
frames_in data_size bytes_per_frame =
    if ltb 0 bytes_per_frame then data_size / bytes_per_frame else 0

unfoldable pub header_of : Chunks → Header
header_of h =
    let bytes_per_frame = h.channels * (h.bit_depth / 8) in
    record {
      sample_rate = h.sample_rate;
      channels = h.channels;
      bit_depth = h.bit_depth;
      data_start = h.data_start;
      bytes_per_frame = bytes_per_frame;
      total_frames = frames_in h.data_size bytes_per_frame;
    }

module _ (r : Reader) where
  -- What stands before the chunks.
  unfoldable pub read_magic : Parser r.Context (Unit {0})
  read_magic = do
    riff ← read_bytes r 4 read_riff
    demand (text_eq riff riff_id) not_riff
    size_buf ← read_bytes r 4 read_size
    wave ← read_bytes r 4 read_wave
    demand (text_eq wave wave_id) not_wave
    return tt

  unfoldable pub parse_header : ℕ → Parser r.Context Header
  parse_header fuel = do
    read_magic
    h ← read_chunks r fuel no_chunks
    demand h.found_fmt no_fmt
    demand h.found_data no_data
    return (header_of h)
