-- ===== src/Codec/Wav/File.antt =====
-- crates/around-codec-wav/src/lib.rs: a WAV file as its bytes, and the header that it states.
use around.Base.{ℕ, suc, ◌+◌, ◌-◌, ◌*◌, ◌/◌, ◌<◌, ◌^◌, List, ◌++◌, length}
use around.Codec.Bytes.{le_bytes}
use around.Codec.Io.{Cursor}
use around.Codec.Wav.Header.{Header, fmt_id, data_id, riff_id, wave_id}
use around.Codec.Wav.Written.{pad, Other, AllOther, others}
use around.Codec.Wav.Fmt.{Fmt, IsFmt, fmt_bytes}

-- A file in RIFF's form, of any stated size: chunks of other kinds, the `fmt ` chunk, more of others, and the `data` chunk.
pub record WavFile : Type 0 where
  pub riff_size : ℕ
  pub first : List Other
  pub fmt : Fmt
  pub between : List Other
  pub samples : List ℕ
  -- What follows the `data` chunk.
  pub tail : List ℕ

-- All but the `data` chunk have even lengths, so nothing before the samples needs padding.
pub record IsWavFile (f : WavFile) : Type 0 where
  pub first_ok : AllOther f.first
  pub fmt_ok : IsFmt f.fmt
  pub between_ok : AllOther f.between
  pub samples_fit : length f.samples < 2 ^ 32

-- The samples and what follows them.
abbrev pub samples_part : WavFile → List ℕ
samples_part f = f.samples ++ pad (length f.samples) f.tail

unfoldable pub data_part : WavFile → List ℕ
data_part f = data_id ++ (le_bytes 4 (length f.samples) ++ samples_part f)

unfoldable pub fmt_part : WavFile → List ℕ
unfolding data_part
fmt_part f =
    fmt_id
    ++ (le_bytes 4 (16 + length f.fmt.extra)
        ++ (fmt_bytes f.fmt
            ++ (f.fmt.extra ++ pad (length f.fmt.extra) (others f.between (data_part f)))))

unfoldable pub wav_bytes : WavFile → List ℕ
unfolding fmt_part
wav_bytes f = riff_id ++ (le_bytes 4 f.riff_size ++ (wave_id ++ others f.first (fmt_part f)))

-- What the file says of itself.
unfoldable pub written_header : WavFile → Header
unfolding wav_bytes
written_header f =
    let bytes_per_frame = f.fmt.channels * (f.fmt.bit_depth / 8) in
    record {
      sample_rate = f.fmt.sample_rate;
      channels = f.fmt.channels;
      bit_depth = f.fmt.bit_depth;
      data_start = length (wav_bytes f) - length (samples_part f);
      bytes_per_frame = bytes_per_frame;
      total_frames = length f.samples / bytes_per_frame;
    }

-- What `open` finds: all that, but 0 for the place of the samples.
abbrev pub found_header : WavFile → Header
found_header f = record (written_header f) { data_start = 0 }

-- One round for each chunk, and some more, is enough.
abbrev pub rounds_of : WavFile → ℕ → ℕ
rounds_of f fuel = length f.first + suc (length f.between + suc fuel)

abbrev pub file_of : WavFile → Cursor
file_of f = record { bytes = wav_bytes f; at = 0 }
