-- ===== src/Filter/Encoded.antt =====
-- crates/around-engine/src/filter_chain.rs: `encode_f32` writes the bytes that it says, and no others.
use native.Mathlib.Nat.{mul_assoc, mul-le-mul_right, suc-mul, mul_comm}
use around.Base.{
  ltb→lt, leb→le, ℕ, zero, suc, ◌+◌, ◌*◌, ◌^◌, ◌≤◌, ◌<◌, ltb, leb, List, [], ◌∷◌, length, Result,
  ok, err, ◌≡◌, ap, ◌∙◌, subst, arith, inl, inr, Bool-cases,
}
use around.Core.Spec.{
  planar, interleave_eq, TargetEndian, SampleSpec, bytes_per_sample, bytes_per_frame,
}
use around.Filter.Written.{Within, Within-self, Within-trans, write_sample-Within}
use around.Filter.Encode.{TooSmall, Floats, write_samples, write_frames, write_channels, encode_f32}

module _ (fl : Floats) (t : TargetEndian) (n : ℕ) where
  write_samples-Within :
      (spec : SampleSpec) (index : ℕ) (samples : List fl.F32) (out : List ℕ)
      → (index + length samples) * bytes_per_sample spec ≤ n
      → n ≤ length out
      → Within n out (write_samples fl t spec index samples out)
  unfolding write_samples bytes_per_sample
  write_samples-Within spec index [] out inside fits = Within-self n out
  write_samples-Within spec index (sample ∷ samples) out inside fits =
      let width = bytes_per_sample spec in
      let place : suc index * width ≤ (index + suc (length samples)) * width =
        mul-le-mul_right width (omega arith) in
      let one =
        write_sample-Within fl t n spec.encoding spec.byte_order sample (index * width) out
          (omega (arith, suc-mul index width, place, inside)) fits in
      let more : (index + 1 + length samples) * width ≤ n =
        subst (λ k. k * width ≤ n) (omega arith) inside in
      Within-trans n one (
        write_samples-Within spec (index + 1) samples _ more (omega (arith, one.same_length, fits)))

  write_frames-Within :
      (spec : SampleSpec) (samples : List fl.F32) (frames channel more frame : ℕ) (out : List ℕ)
      → (channel * frames + (frame + more)) * bytes_per_sample spec ≤ n
      → n ≤ length out
      → Within n out (write_frames fl t spec samples frames channel more frame out)
  unfolding write_frames bytes_per_sample
  write_frames-Within spec samples frames channel zero frame out inside fits = Within-self n out
  write_frames-Within spec samples frames channel (suc more) frame out inside fits =
      let width = bytes_per_sample spec in
      let at = channel * frames + frame in
      let place : suc at * width ≤ (channel * frames + (frame + suc more)) * width =
        mul-le-mul_right width (omega arith) in
      let one =
        write_sample-Within fl t n spec.encoding spec.byte_order _ (at * width) out
          (omega (arith, suc-mul at width, place, inside)) fits in
      let later : (channel * frames + (frame + 1 + more)) * width ≤ n =
        subst (λ k. k * width ≤ n) (omega arith) inside in
      Within-trans n one (
        write_frames-Within spec samples frames channel more (frame + 1) _ later
          (omega (arith, one.same_length, fits)))

  write_channels-Within :
      (spec : SampleSpec) (samples : List fl.F32) (frames more channel : ℕ) (out : List ℕ)
      → (channel + more) * frames * bytes_per_sample spec ≤ n
      → n ≤ length out
      → Within n out (write_channels fl t spec samples frames more channel out)
  unfolding write_channels
  write_channels-Within spec samples frames zero channel out inside fits = Within-self n out
  write_channels-Within spec samples frames (suc more) channel out inside fits =
      let width = bytes_per_sample spec in
      let rows : suc channel * frames ≤ (channel + suc more) * frames =
        mul-le-mul_right frames (omega arith) in
      let place : (channel * frames + (0 + frames)) * width
          ≤ (channel + suc more) * frames * width =
        mul-le-mul_right width (omega (arith, suc-mul channel frames, rows)) in
      let one =
        write_frames-Within spec samples frames channel frames 0 out (omega (arith, place, inside))
          fits in
      let later : (channel + 1 + more) * frames * width ≤ n =
        subst (λ k. k * frames * width ≤ n) (omega arith) inside in
      Within-trans n one (
        write_channels-Within spec samples frames more (channel + 1) _ later
          (omega (arith, one.same_length, fits)))

-- The bytes of the frames, as the loops count them.
frames_bytes : (frames channels width : ℕ) → channels * frames * width ≡ frames * (width * channels)
frames_bytes frames channels width =
    ap (λ k. k * width) (mul_comm channels frames)
    ∙ mul_assoc frames channels width
    ∙ ap (λ k. frames * k) (mul_comm channels width)

encode_size :
    (frames : ℕ) (spec : SampleSpec)
    → spec.channels * frames * bytes_per_sample spec ≤ frames * bytes_per_frame spec
unfolding bytes_per_frame
encode_size frames spec = omega (arith, frames_bytes frames spec.channels (bytes_per_sample spec))

-- What `encode_f32` answers and leaves in the output.
pub data Encoded (frames : ℕ) (spec : SampleSpec) (out : List ℕ)
    : Result TooSmall ℕ × List ℕ → Type 0 where
  too_small :
      {e : TooSmall}
      → length out < frames * bytes_per_frame spec
      → Encoded frames spec out (err e, out)
  overflows :
      {e : TooSmall} → 2 ^ 64 ≤ frames * bytes_per_frame spec → Encoded frames spec out (err e, out)
  encoded :
      {after : List ℕ}
      → frames * bytes_per_frame spec ≤ length out
      → Within (frames * bytes_per_frame spec) out after
      → Encoded frames spec out (ok (frames * bytes_per_frame spec), after)

module _ (fl : Floats) (t : TargetEndian) where
  -- Given as many samples as the frames have, `encode_f32` either answers that the output is too small
  -- for the frames, or for a machine word their size, and then leaves the output as it is; or it answers
  -- how many bytes the frames take, which the output has, and changes no byte after them and not the
  -- output's length. This holds for every encoding, byte order and layout.
  pub encode_f32-Encoded :
      (samples : List fl.F32) (frames : ℕ) (spec : SampleSpec) (out : List ℕ)
      → length samples ≡ spec.channels * frames
      → Encoded frames spec out (encode_f32 fl t samples frames spec out)
  unfolding encode_f32
  encode_f32-Encoded samples frames spec out all =
      let n = frames * bytes_per_frame spec in
      let width = bytes_per_sample spec in
      let size = encode_size frames spec in
      elim (Bool-cases (leb (2 ^ 64) n)) [
        | inl big ↦ rw big (overflows (leb→le (2 ^ 64) n big))
        | inr word ↦ rw word (elim (Bool-cases (ltb (length out) n)) [
          | inl small ↦ rw small (too_small (ltb→lt (length out) n small))
          | inr fits ↦
              let room : n ≤ length out = ground (arith, fits) in
              rw fits (elim (Bool-cases (interleave_eq spec.interleave planar)) [
                | inl apart ↦ rw apart (
                    encoded room (
                      write_channels-Within fl t n spec samples frames spec.channels 0 out
                        (subst (λ k. k * frames * width ≤ n) (omega arith) size) room))
                | inr together ↦ rw together (
                    encoded room (
                      write_samples-Within fl t n spec 0 samples out
                        (subst (λ k. k * width ≤ n) (omega (arith, all)) size) room))
              ])
        ])
      ]
