-- ===== src/Core/Buffer.antt =====
-- crates/around-core/src/audio_buffer.rs: views of PCM bytes with their format.
-- `AudioBuffer` stands for `AudioBufferRef` and `AudioBufferMut`, which `new` checks alike.
use around.Base.{
  backwards, ℕ, zero, suc, ◌*◌, ◌^◌, ◌/◌, ◌%◌, Bool, not, leb, ◌==◌, ◌||◌, ◌&&◌, if◌then◌else◌,
  List, [], ◌∷◌, ◌++◌, length, take, drop, Result, ok, err, map_err, ◌>>=◌, ◌>>◌, guard,
}
use around.Core.Spec.{
  SampleSpec, PcmEncoding, f32, interleaved, TargetEndian, bytes_per_frame, bytes_per_sample,
  new_interleaved, is_native, encoding_eq, interleave_eq,
}

-- Without the texts of `Spec`.
pub data AudioBufferError : Type 0 where
  spec_error interleave_mismatch null_data : AudioBufferError
  encoding_mismatch : (expected actual : PcmEncoding) → AudioBufferError
  frame_alignment : (bytes frame_bytes : ℕ) → AudioBufferError
  length_mismatch : (expected actual : ℕ) → AudioBufferError

pub record AudioBuffer : Type 0 where
  pub spec : SampleSpec
  pub frames : ℕ
  pub bytes : List ℕ

unfoldable pub new_buffer : SampleSpec → ℕ → List ℕ → Result AudioBufferError AudioBuffer
new_buffer spec frames bytes =
    let expected = frames * bytes_per_frame spec in
    if leb (2 ^ 64) expected
    then err spec_error
    else if not (expected == length bytes)
    then err (length_mismatch expected (length bytes))
    else ok (record { spec = spec; frames = frames; bytes = bytes })

unfoldable pub validate_buffer : AudioBuffer → Result AudioBufferError (Unit {0})
validate_buffer b = new_buffer b.spec b.frames b.bytes >>= λ valid. ok tt

-- `AudioBufferMut::validate` multiplies in `usize` without a check.
unfoldable pub validate_mut : AudioBuffer → Result AudioBufferError (Unit {0})
validate_mut b =
    let expected = b.frames * bytes_per_frame b.spec % 2 ^ 64 in
    if expected == length b.bytes then ok tt else err (length_mismatch expected (length b.bytes))

-- Samples as they stand in memory, four bytes each.
abbrev pub bytes_of : {A : Type 0} → (A → List ℕ) → List A → List ℕ
bytes_of to_bytes [] = []
bytes_of to_bytes (x ∷ xs) = to_bytes x ++ bytes_of to_bytes xs

unfoldable pub from_f32_interleaved :
    {A : Type 0} → (A → List ℕ) → ℕ → ℕ → List A → Result AudioBufferError AudioBuffer
from_f32_interleaved to_bytes sample_rate channels samples = do
  spec ← map_err (λ message. spec_error) (new_interleaved sample_rate channels f32)
  guard (length samples % channels == 0)
      (frame_alignment (length samples * 4) (bytes_per_frame spec))
  new_buffer spec (length samples / channels) (bytes_of to_bytes samples)

-- The checks of `as_f32_interleaved`, given whether the bytes are aligned.
unfoldable pub check_f32_interleaved : Bool → AudioBuffer → Result AudioBufferError (Unit {0})
check_f32_interleaved aligned b = do
  guard (encoding_eq b.spec.encoding f32) (encoding_mismatch f32 b.spec.encoding)
  guard (interleave_eq b.spec.interleave interleaved) interleave_mismatch
  guard aligned spec_error
  ok tt

-- `for sample in data.chunks_exact_mut(width) { sample.reverse() }`, over `n` chunks.
unfoldable pub reverse_chunks : ℕ → ℕ → List ℕ → List ℕ
reverse_chunks zero width bytes = bytes
reverse_chunks (suc n) width bytes =
    backwards (take width bytes) [] ++ reverse_chunks n width (drop width bytes)

unfoldable pub normalize_byte_order :
    TargetEndian → SampleSpec → List ℕ → Result AudioBufferError (Unit {0}) × List ℕ
normalize_byte_order t spec bytes =
    let width = bytes_per_sample spec in
    if is_native t spec.byte_order || width == 1
    then (ok tt, bytes)
    else if not (width == 0) && not (length bytes % width == 0)
    then (err (frame_alignment (length bytes) width), bytes)
    else (ok tt, reverse_chunks (length bytes / width) width bytes)
