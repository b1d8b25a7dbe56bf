-- ===== src/Core/BufferTests.antt =====
-- Runs of crates/around-core/src/audio_buffer.rs.
use around.Base.{
  ℕ, ◌*◌, ◌%◌, ◌/◌, ◌==◌, if◌then◌else◌, ◌≡◌, ◌≢◌, ◌⊎◌, refl, arith, List, [], ◌∷◌, length, ok, err,
}
use around.Core.Spec.{
  SampleSpec, i24, interleaved, big, little_endian, validate, bytes_per_frame, bytes_per_sample,
}
use around.Core.Buffer.{
  AudioBufferError, frame_alignment, normalize_byte_order, from_f32_interleaved, bytes_of,
}
use around.Core.ByteOrders.{Normalized, normalize_byte_order_lem}
use around.Core.Buffers.{f32_spec, from_f32_interleaved_lem}

abbrev big_mono : SampleSpec
big_mono = record {
  sample_rate = 48000;
  channels = 1;
  encoding = i24;
  interleave = interleaved;
  byte_order = big;
}

-- Two samples of three bytes.
abbrev two_samples : List ℕ
two_samples = 1 ∷ 2 ∷ 3 ∷ 4 ∷ 5 ∷ 6 ∷ []

normalize_test :
    normalize_byte_order little_endian big_mono two_samples ≡ (ok tt, 3 ∷ 2 ∷ 1 ∷ 6 ∷ 5 ∷ 4 ∷ [])
unfolding normalize_byte_order around.Core.Spec.is_native around.Core.Spec.bytes_per_sample
    around.Core.Buffer.reverse_chunks
normalize_test = refl

normalize_byte_order_lem_example :
    Normalized little_endian big_mono two_samples
      (normalize_byte_order little_endian big_mono two_samples)
    ⊎ ((normalize_byte_order little_endian big_mono two_samples
          ≡ (err (frame_alignment 6 (bytes_per_sample big_mono)), two_samples))
        × (6 % bytes_per_sample big_mono ≢ 0))
normalize_byte_order_lem_example = normalize_byte_order_lem little_endian big_mono two_samples

abbrev four_zeros : ℕ → List ℕ
four_zeros n = 0 ∷ 0 ∷ 0 ∷ 0 ∷ []

abbrev three : List ℕ
three = 1 ∷ 2 ∷ 3 ∷ []

stereo_valid : validate (f32_spec 48000 2) ≡ ok tt
unfolding validate
stereo_valid = refl

-- Three samples are no whole frames of two channels.
from_f32_interleaved_lem_example : from_f32_interleaved four_zeros 48000 2 three ≡ (
    if length three % 2 == 0
    then ok (record {
      spec = f32_spec 48000 2;
      frames = length three / 2;
      bytes = bytes_of four_zeros three;
    })
    else err (frame_alignment (length three * 4) (bytes_per_frame (f32_spec 48000 2))))
from_f32_interleaved_lem_example =
    from_f32_interleaved_lem four_zeros 48000 2 three (λ n. refl) stereo_valid (omega arith)
