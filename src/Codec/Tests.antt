-- ===== src/Codec/Tests.antt =====
-- Tests of the WAV codec and of the choice of a codec, and the theorems at concrete inputs.
use around.Base.{
  ℕ, ◌*◌, ◌^◌, ◌<◌, some, [], ◌∷◌, ◌++◌, length, ok, err, ◌≡◌, ◌≢◌, refl, ap, arith, ◌⊎◌, All, ◌<◌,
  replicate,
}
use around.Base.Int.{ℤ, pos, negsuc}
use around.Base.Text.{compare_text}
use around.Codec.Bytes.{le_bytes}
use around.Codec.Io.{bridge, cursor, Cursor, read_cb, cursor_read, read_size}
use around.Codec.Choose.{Codec, wav_codec, open_codec, choose}
use around.Codec.Chosen.{IsFirstBest, choose-IsFirstBest, open_codec-wav_bytes}
use around.Codec.Wav.{WavStream}
use around.Codec.Wav.Parser.{no_fmt, out_of_fuel, filled, read_bytes}
use around.Codec.Wav.Header.{parse_header, read_magic}
use around.Codec.Wav.Samples.{Floats, sample_f32}
use around.Codec.Wav.Stream.{
  Opened, probe, open_wav, after_header, stream_of, read, read_frames, with_bytes, put_frame,
  convert, at_end, frame_size, seek,
}
use around.Codec.Wav.Terminates.{parse_header-terminates}
use around.Codec.Wav.Files.{cursor_forward}
use around.Codec.Wav.Written.{others}
use around.Codec.Wav.Fmt.{fmt_bytes}
use around.Codec.Wav.File.{
  WavFile, IsWavFile, wav_bytes, written_header, found_header, rounds_of, file_of,
}
use around.Codec.Wav.RoundTrip.{open_wav-wav_bytes}
use around.Codec.Wav.Decoding.{twos, sample_f32-le_bytes}
use around.Codec.Wav.Reading.{ReadAnswer, read-ReadAnswer}
use around.Codec.Wav.Opening.{IsOpened, open_wav-IsOpened}
use around.Codec.Wav.Seeking.{seek_lands}

-- Floats as fractions of an integer.
abbrev fractions : Floats
fractions = record {
  F32 = ℤ × ℕ;
  zero_f32 = (pos 0, 1);
  from_int = λ v. (v, 1);
  div_f32 = λ x d. (x.0, x.1 * d);
}

-- Two frames of 16-bit stereo, with a chunk of another kind before the `fmt ` chunk.
abbrev stereo : WavFile
stereo = record {
  riff_size = 54;
  first = record { id = b'L' ∷ b'I' ∷ b'S' ∷ b'T' ∷ []; body = 1 ∷ 2 ∷ [] } ∷ [];
  fmt = record {
    channels = 2;
    sample_rate = 8000;
    byte_rate = 32000;
    block_align = 4;
    bit_depth = 16;
    extra = 0 ∷ 0 ∷ [];
  };
  between = [];
  samples = 0 ∷ 0 ∷ 255 ∷ 255 ∷ 1 ∷ 0 ∷ 254 ∷ 255 ∷ [];
  tail = 9 ∷ [];
}

stereo-IsWavFile : IsWavFile stereo
unfolding compare_text
stereo-IsWavFile = record {
  first_ok = (
    record {
      id_length = refl;
      not_fmt = refl;
      not_data = refl;
      body_fits = omega arith;
      even = refl;
    },
    tt,
  );
  fmt_ok = record {
    channels_ok = refl;
    depth_ok = refl;
    rate_fits = omega arith;
    fits = omega arith;
    even = refl;
  };
  between_ok = tt;
  samples_fit = omega arith;
}

stereo_small : length (wav_bytes stereo) < 2 ^ 63
unfolding wav_bytes others fmt_bytes le_bytes
stereo_small = omega arith

open_wav-wav_bytes_example :
    open_wav (bridge cursor) (rounds_of stereo 0) (file_of stereo)
    ≡ (ok (stream_of (found_header stereo)), file_of stereo)
open_wav-wav_bytes_example = open_wav-wav_bytes stereo stereo-IsWavFile 0 stereo_small

-- The file's samples begin at its byte 56.
place_test : (written_header stereo).data_start ≡ 56
unfolding written_header others fmt_bytes le_bytes
place_test = refl

-- A codec that is as sure as `n`.
abbrev sure : ℕ → Codec Cursor
sure n = record { probe = λ header name. n; open_reader = λ c. (err (negsuc 0), c) }

open_codec-wav_bytes_example :
    open_codec cursor
      (rounds_of stereo 0)
      (sure 40 ∷ sure 49 ∷ [])
      (ok (file_of stereo))
      (ok (file_of stereo))
    ≡ ok (record {
      stream = (stream_of (found_header stereo)).0;
      info = (stream_of (found_header stereo)).1;
      codec = wav_codec cursor (rounds_of stereo 0);
      reader = file_of stereo;
    })
open_codec-wav_bytes_example =
    open_codec-wav_bytes stereo 0 (sure 40 ∷ sure 49 ∷ []) stereo-IsWavFile stereo_small
      (omega arith, (omega arith, tt))

-- An odd chunk before the `fmt ` chunk: its padding is taken for the next chunk's first byte, and no
-- `fmt ` chunk is found.
abbrev odd : WavFile
odd = record stereo { first = record { id = b'L' ∷ b'I' ∷ b'S' ∷ b'T' ∷ []; body = 1 ∷ [] } ∷ [] }

odd_test : (parse_header (bridge cursor) 4 (file_of odd)).0 ≡ err no_fmt
unfolding parse_header wav_bytes read_magic read_bytes read_cb cursor_read compare_text filled
    le_bytes around.Codec.Wav.Header.read_chunks around.Codec.Wav.Header.after_id others
    around.Codec.Wav.Header.one_chunk around.Codec.Wav.Header.chunk_body
    around.Codec.Wav.Parser.skip around.Codec.Io.seek_cb around.Codec.Io.cursor_seek
    around.Codec.Bytes.u32_at fmt_bytes around.Codec.Bytes.u16_at around.Codec.Io.answered
    around.Codec.Io.move_to around.Codec.Io.non_negative read_size around.Codec.Io.seek_start
    around.Codec.Wav.File.data_part around.Codec.Wav.File.fmt_part around.Codec.Wav.Header.fmt_chunk
    around.Codec.Wav.Header.header_of around.Codec.Wav.Header.skip_extra
odd_test = refl

parse_header-terminates_example :
    (parse_header (bridge cursor) 4 (record { bytes = 82 ∷ 73 ∷ 70 ∷ []; at = 0 })).0
    ≢ err out_of_fuel
parse_header-terminates_example =
    parse_header-terminates (bridge cursor) cursor_forward 4
      (record { bytes = 82 ∷ 73 ∷ 70 ∷ []; at = 0 }) (omega arith)

-- -2 in 24 bits is 254, 255, 255.
sample_f32-le_bytes_example :
    sample_f32 fractions 24 ((7 ∷ []) ++ (le_bytes 3 (twos 24 (negsuc 1)) ++ [])) 1
    ≡ (negsuc 1, 8388608)
sample_f32-le_bytes_example =
    sample_f32-le_bytes fractions (7 ∷ []) [] (negsuc 1) 24 refl (omega arith)

abbrev mono : WavStream
mono = record {
  channels = 1;
  bit_depth = 8;
  data_start = 0;
  bytes_per_frame = 1;
  total_frames = 3;
  position = 1;
}

abbrev five : Cursor
five = record { bytes = 10 ∷ 11 ∷ 12 ∷ 13 ∷ 14 ∷ []; at = 1 }

read-ReadAnswer_example :
    ReadAnswer fractions
      (bridge cursor)
      mono
      (replicate 4 (pos 0, 1))
      (read fractions (bridge cursor) (some mono) (some (replicate 4 (pos 0, 1))) five)
read-ReadAnswer_example =
    read-ReadAnswer fractions (bridge cursor) mono (replicate 4 (pos 0, 1)) five (omega arith)
      (omega arith)

-- Two of the file's three frames are left, so two samples are written.
read_two :
    (read fractions (bridge cursor) (some mono) (some (replicate 4 (pos 0, 1))) five).0 ≡ pos 2
unfolding read read_frames with_bytes put_frame convert at_end frame_size read_cb read_size
    cursor_read around.Codec.Wav.Samples.signed
read_two = refl

seek_lands_example :
    seek (bridge cursor) mono 7 five ≡ (pos 2, record mono { position = 2 }, record five { at = 2 })
seek_lands_example = seek_lands mono 7 five (omega arith) (omega arith) (omega arith)

open_wav-IsOpened_example :
    IsOpened (stream_of (found_header stereo)).0 (stream_of (found_header stereo)).1
open_wav-IsOpened_example =
    open_wav-IsOpened (bridge cursor) (rounds_of stereo 0) (file_of stereo)
      (stream_of (found_header stereo)).0 (stream_of (found_header stereo)).1
      (ap (λ (r : Opened × Cursor). r.0)
        (open_wav-wav_bytes stereo stereo-IsWavFile 0 stereo_small))

-- A codec that is not sure, one that is, and one that is as sure.
choose-IsFirstBest_example :
    IsFirstBest []
      (sure 40 ∷ sure 60 ∷ sure 60 ∷ [])
      (choose (sure 40 ∷ sure 60 ∷ sure 60 ∷ []) (sure 0) [])
    ⊎ ((choose (sure 40 ∷ sure 60 ∷ sure 60 ∷ []) (sure 0) [] ≡ sure 0)
        × All (λ (d : Codec Cursor). d.probe [] [] < 50) (sure 40 ∷ sure 60 ∷ sure 60 ∷ []))
choose-IsFirstBest_example = choose-IsFirstBest [] (sure 40 ∷ sure 60 ∷ sure 60 ∷ []) (sure 0)

-- A file's magic number beats its name, whose case does not matter.
probe_magic : probe (82 ∷ 73 ∷ 70 ∷ 70 ∷ []) (b'a' ∷ []) ≡ 95
unfolding probe compare_text
probe_magic = refl

probe_name : probe (0 ∷ []) (b'a' ∷ b'.' ∷ b'W' ∷ b'a' ∷ b'V' ∷ []) ≡ 60
unfolding probe compare_text
probe_name = refl

-- Data that is not RIFF is refused.
open_other : (open_wav (bridge cursor) 9 five).0 ≡ err (negsuc 0)
unfolding open_wav after_header parse_header read_magic read_bytes read_cb read_size cursor_read
    filled compare_text
open_other = refl
