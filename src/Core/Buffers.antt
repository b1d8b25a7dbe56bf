-- ===== src/Core/Buffers.antt =====
-- crates/around-core/src/audio_buffer.rs: views fit their bytes.
use around.Base.{
  length-append, ℕ, ◌*◌, ◌^◌, ◌/◌, ◌%◌, ◌<◌, true, false, leb, ◌==◌, if◌then◌else◌, List, [], ◌∷◌,
  length, ok, err, ◌≡◌, refl, ap, ◌∙◌, arith, inl, inr, Bool-cases,
}
use around.Core.Spec.{
  validate, new, ByteOrder, interleaved, bits, new_interleaved, encoding_bytes_per_sample, f32,
  bytes_per_frame, SampleSpec, bytes_per_sample,
}
use around.Core.Buffer.{frame_alignment, from_f32_interleaved, bytes_of, new_buffer}
use native.Mathlib.Nat.{mul_left_comm, mod-add-div'}

-- Samples have four bytes each.
length-bytes_of :
    {A : Type 0} (to_bytes : A → List ℕ) (samples : List A)
    → ((a : A) → length (to_bytes a) ≡ 4)
    → length (bytes_of to_bytes samples) ≡ 4 * length samples
length-bytes_of to_bytes [] four = refl
length-bytes_of to_bytes (x ∷ xs) four = omega (
  arith,
  length-append (to_bytes x) (bytes_of to_bytes xs),
  four x,
  length-bytes_of to_bytes xs four,
)

-- Interleaved `f32` in the machine's byte order.
abbrev pub f32_spec : ℕ → ℕ → SampleSpec
f32_spec sample_rate channels = record {
  sample_rate = sample_rate;
  channels = channels;
  encoding = f32;
  interleave = interleaved;
  byte_order = ByteOrder.native;
}

f32_frames :
    (n sample_rate channels : ℕ)
    → n % channels ≡ 0
    → n / channels * bytes_per_frame (f32_spec sample_rate channels) ≡ 4 * n
unfolding bytes_per_frame bytes_per_sample encoding_bytes_per_sample bits
f32_frames n sample_rate channels whole =
    mul_left_comm (n / channels) 4 channels
    ∙ ap (λ k. 4 * k) (omega (arith, mod-add-div' n channels, whole))

-- With a valid rate and channel count, `from_f32_interleaved` makes a view of the samples' own bytes
-- where the samples are whole frames, and else refuses them for their alignment; it never finds that
-- their length is wrong.
pub from_f32_interleaved_lem :
    {A : Type 0} (to_bytes : A → List ℕ) (sample_rate channels : ℕ) (samples : List A)
    → ((a : A) → length (to_bytes a) ≡ 4)
    → validate (f32_spec sample_rate channels) ≡ ok tt
    → length samples * 4 < 2 ^ 64
    → from_f32_interleaved to_bytes sample_rate channels samples ≡ (
        if length samples % channels == 0
        then ok (record {
          spec = f32_spec sample_rate channels;
          frames = length samples / channels;
          bytes = bytes_of to_bytes samples;
        })
        else err (
            frame_alignment (length samples * 4) (bytes_per_frame (f32_spec sample_rate channels))))
unfolding from_f32_interleaved new_interleaved new new_buffer
from_f32_interleaved_lem to_bytes sample_rate channels samples four valid small =
    rw valid (elim (Bool-cases (length samples % channels == 0)) [
      | inr part ↦ rw part refl
      | inl whole ↦
          let size = f32_frames (length samples) sample_rate channels (ground (arith, whole)) in
          let long = length-bytes_of to_bytes samples four in
          let small' : leb (2 ^ 64) (4 * length samples) ≡ false = ground (arith, small) in
          let same : (4 * length samples == length (bytes_of to_bytes samples)) ≡ true =
            ground (arith, long) in
          rw whole (rw size (rw small' (rw same refl)))
    ])
