-- ===== src/Codec/Wav/Stream.antt =====
-- crates/around-codec-wav/src/lib.rs: `Codec for WavCodec`.
-- A null pointer is `none`. `samples_written` is an `i32`, kept as its 32 bits.
use around.Base.{
  ℕ, zero, suc, ◌+◌, ◌-◌, ◌*◌, ◌/◌, ◌%◌, ◌^◌, min, Bool, ◌&&◌, ltb, leb, ◌==◌, if◌then◌else◌,
  Option, none, some, List, [], ◌∷◌, length, take, drop, map, set, Result, ok, err,
}
use around.Base.Int.{ℤ, pos, negsuc}
use around.Base.Text.{Text, text_eq}
use around.Codec.Io.{Reader}
use around.Codec.Wav.{WavStream}
use around.Codec.Wav.Parser.{HeaderError}
use around.Codec.Wav.Header.{Header, parse_header, riff_id}
use around.Codec.Wav.Samples.{Floats, sample_f32, signed}

-- `StreamInfo` of crates/around-audio-sdk/src/codec.rs
pub record StreamInfo : Type 0 where
  pub sample_rate : ℕ
  pub channels : ℕ
  pub total_frames : ℕ

-- `str::to_lowercase` on an ASCII letter.
abbrev to_lower : ℕ → ℕ
to_lower c = if leb b'A' c && leb c b'Z' then c + 32 else c

abbrev wav_ending : Text
wav_ending = b'.' ∷ b'w' ∷ b'a' ∷ b'v' ∷ []

-- The last four bytes of a valid UTF-8 name in lower case are ".wav".
ends_with_wav : Text → Bool
ends_with_wav name = text_eq (map to_lower (drop (length name - 4) name)) wav_ending

unfoldable pub probe : List ℕ → Text → ℕ
unfolding ends_with_wav
probe header filename =
    if leb 4 (length header) && text_eq (take 4 header) riff_id
    then 95
    else if leb 4 (length filename) && ends_with_wav filename
    then 60
    else 0

-- `i64::try_from(n).unwrap_or(-1)`
unfoldable pub to_i64 : ℕ → ℤ
to_i64 n = if ltb n (2 ^ 63) then pos n else negsuc 0

unfoldable pub stream_of : Header → WavStream × StreamInfo
stream_of h = (
  record {
    channels = h.channels;
    bit_depth = h.bit_depth;
    data_start = h.data_start;
    bytes_per_frame = h.bytes_per_frame;
    total_frames = h.total_frames;
    position = 0;
  },
  record { sample_rate = h.sample_rate; channels = h.channels; total_frames = h.total_frames },
)

-- The result of `open` that is not 0, and its two outputs where it is 0.
abbrev pub Opened : Type 0
Opened = Result ℤ (WavStream × StreamInfo)

unfoldable pub after_seek : {C : Type 0} → Header → Option ℕ × C → Opened × C
after_seek h (none, c) = (err (negsuc 1), c)
after_seek h (some at, c) = (ok (stream_of h), c)

module _ (r : Reader) where
  unfoldable pub after_header : Result HeaderError Header × r.Context → Opened × r.Context
  unfolding after_seek
  after_header (err e, c) = (err (negsuc 0), c)
  after_header (ok h, c) = after_seek h (r.seek (to_i64 h.data_start) 0 c)

  unfoldable pub open_wav : ℕ → r.Context → Opened × r.Context
  open_wav fuel c = after_header (parse_header r fuel c)

-- The variables of the loop in `read`.
pub record ReadLoop (F C : Type 0) : Type 0 where
  pub stream : WavStream
  pub context : C
  pub out : List F
  pub samples_written : ℕ

-- `samples_written as usize`, with the sign's bit in front.
unfoldable pub as_usize : ℕ → ℕ
as_usize bits = if ltb bits (2 ^ 31) then bits else bits + (2 ^ 64 - 2 ^ 32)

-- `s.total_frames > 0 && s.position >= s.total_frames`
unfoldable pub at_end : WavStream → Bool
at_end s = ltb 0 s.total_frames && leb s.total_frames s.position

unfoldable pub frame_size : WavStream → ℕ
frame_size s = s.channels * (s.bit_depth / 8)

module _ (fl : Floats) where
  -- `for ch in 0..channels`, of which `more` are left.
  unfoldable pub convert : ℕ → ℕ → ℕ → List ℕ → ℕ → List fl.F32 → List fl.F32
  convert zero ch bit_depth raw written out = out
  convert (suc more) ch bit_depth raw written out = convert more (ch + 1) bit_depth raw written (
      set out ((as_usize written + ch) % 2 ^ 64)
        (sample_f32 fl bit_depth raw (ch * (bit_depth / 8))))

  -- One frame whose bytes have come.
  unfoldable pub put_frame : {C : Type 0} → List ℕ → ReadLoop fl.F32 C → ReadLoop fl.F32 C
  put_frame raw l = record l {
    out = convert l.stream.channels 0 l.stream.bit_depth raw l.samples_written l.out;
    samples_written = (l.samples_written + l.stream.channels) % 2 ^ 32;
    stream = record l.stream { position = l.stream.position + 1 };
  }

  module _ (r : Reader) where
    -- The end, an error and a frame that is cut short leave the loop.
    unfoldable pub with_bytes :
        (ReadLoop fl.F32 r.Context → ReadLoop fl.F32 r.Context)
        → ReadLoop fl.F32 r.Context
        → Option (List ℕ) × r.Context
        → ReadLoop fl.F32 r.Context
    with_bytes later l (none, c) = record l { context = c }
    with_bytes later l (some raw, c) =
        if length raw == 0
        then (record l { context = c })
        else if ltb (length raw) (frame_size l.stream)
        then (record l { context = c })
        else later (put_frame raw (record l { context = c }))

    unfoldable pub read_frames : ℕ → ReadLoop fl.F32 r.Context → ReadLoop fl.F32 r.Context
    read_frames zero l = l
    read_frames (suc frames) l =
        if at_end l.stream
        then l
        else with_bytes (read_frames frames) l (r.read (frame_size l.stream) l.context)

    -- `read` into `out`: what it answers, and what it leaves in the stream and in the buffer.
    unfoldable pub read :
        Option WavStream → Option (List fl.F32) → r.Context → ℤ × Option (ReadLoop fl.F32 r.Context)
    read none buf c = (negsuc 0, none)
    read (some s) none c = (negsuc 0, none)
    read (some s) (some out) c =
        let l =
          read_frames (length out / s.channels)
            (record { stream = s; context = c; out = out; samples_written = 0 }) in
        (signed 32 l.samples_written, some l)

-- `frame.min(total_frames - 1)`, where the number of frames is known.
unfoldable pub clamp_frame : WavStream → ℕ → ℕ
clamp_frame s frame = if ltb 0 s.total_frames then min frame (s.total_frames - 1) else frame

module _ (r : Reader) where
  unfoldable pub after_move : ℕ → WavStream → Option ℕ × r.Context → ℤ × WavStream × r.Context
  after_move target s (some at, c) = (to_i64 target, record s { position = target }, c)
  after_move target s (none, c) = (negsuc 1, s, c)

  -- `seek` on a stream that is not null. The byte's place is computed in `u64`.
  unfoldable pub seek : WavStream → ℕ → r.Context → ℤ × WavStream × r.Context
  unfolding after_move
  seek s frame c =
      let target = clamp_frame s frame in
      let byte_offset = target * s.bytes_per_frame % 2 ^ 64 in
      after_move target s (r.seek (to_i64 ((s.data_start + byte_offset) % 2 ^ 64)) 0 c)
