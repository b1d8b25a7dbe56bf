-- ===== src/Filter/Tests.antt =====
-- Runs of crates/around-engine/src/filter_chain.rs.
use around.Base.{ℕ, true, false, List, [], ◌∷◌, ok, ◌≡◌, refl}
use around.Base.Int.{ℤ, pos, negsuc}
use around.Core.Spec.{SampleSpec, i16, planar, big, little_endian}
use around.Filter.Encode.{Floats, encode_f32}
use around.Filter.Encoded.{Encoded, encode_f32-Encoded}

-- Numbers that stand for their samples.
abbrev whole : Floats
whole = record {
  F32 = ℤ;
  F64 = ℤ;
  zero_f32 = pos 0;
  is_finite = λ x. true;
  clamp_unit = λ x. x;
  is_negative = λ x. false;
  to_f64 = λ x. x;
  from_int = λ x. x;
  half = pos 1;
  add = λ x y. x;
  mul = λ x y. x;
  round = λ x. x;
  clamp = λ low high x. x;
  to_int = λ x. x;
  ne_bytes_f32 = λ x. 0 ∷ 0 ∷ 0 ∷ 0 ∷ [];
  ne_bytes_f64 = λ x. 0 ∷ 0 ∷ 0 ∷ 0 ∷ 0 ∷ 0 ∷ 0 ∷ 0 ∷ [];
  length-ne_bytes_f32 = λ x. refl;
  length-ne_bytes_f64 = λ x. refl;
}

abbrev stereo : SampleSpec
stereo = record {
  sample_rate = 48000;
  channels = 2;
  encoding = i16;
  interleave = planar;
  byte_order = big;
}

abbrev samples : List ℤ
samples = pos 1 ∷ negsuc 0 ∷ pos 258 ∷ pos 3 ∷ []

abbrev buffer : List ℕ
buffer = 9 ∷ 9 ∷ 9 ∷ 9 ∷ 9 ∷ 9 ∷ 9 ∷ 9 ∷ 9 ∷ []

-- The first channel's samples, and then the second's.
encode_test :
    encode_f32 whole little_endian samples 2 stereo buffer
    ≡ (ok 8, 0 ∷ 1 ∷ 1 ∷ 2 ∷ 255 ∷ 255 ∷ 0 ∷ 3 ∷ 9 ∷ [])
unfolding encode_f32 around.Core.Spec.bytes_per_frame around.Core.Spec.interleave_eq
    around.Filter.Encode.write_channels around.Filter.Encode.write_frames
    around.Filter.Encode.write_sample around.Filter.Encode.write_integers
    around.Filter.Encode.write_integer around.Filter.Encode.put_bytes around.Filter.Encode.ordered
    around.Filter.Encode.is_little around.Codec.Bytes.le_bytes around.Core.Spec.is_signed
    around.Filter.Encode.signed_integer
encode_test = refl

encode_f32-Encoded_example :
    Encoded 2 stereo buffer (encode_f32 whole little_endian samples 2 stereo buffer)
encode_f32-Encoded_example = encode_f32-Encoded whole little_endian samples 2 stereo buffer refl
