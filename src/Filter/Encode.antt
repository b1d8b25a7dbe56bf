-- ===== src/Filter/Encode.antt =====
-- crates/around-engine/src/filter_chain.rs: `encode_f32` and what it calls.
-- The `f32` and `f64` operations are a parameter. A buffer is a list; a write that goes past its end
-- makes it longer, where the source panics.
use around.Base.{
  backwards, leb, ℕ, zero, suc, ◌+◌, ◌-◌, ◌*◌, ◌^◌, Bool, true, false, ltb, if◌then◌else◌, List, [],
  ◌∷◌, ◌++◌, length, take, drop, get_or, Result, ok, err, ◌≡◌,
}
use around.Base.Int.{ℤ, pos, negsuc}
use around.Codec.Bytes.{le_bytes}
use around.Core.Spec.{
  PcmEncoding, f32, f64, ByteOrder, native, little, big, TargetEndian, little_endian, big_endian,
  SampleSpec, planar, interleave_eq, is_signed, bits, encoding_bytes_per_sample, bytes_per_sample,
  bytes_per_frame,
}

-- IEEE 754 numbers, with the target's byte order in `to_ne_bytes`.
pub record Floats : Type 1 where
  pub F32 : Type 0
  pub F64 : Type 0
  pub zero_f32 : F32
  pub is_finite : F32 → Bool
  -- `clamp(-1.0, 1.0)`
  pub clamp_unit : F32 → F32
  pub is_negative : F32 → Bool
  pub to_f64 : F32 → F64
  pub from_int : ℤ → F64
  pub half : F64
  pub add : F64 → F64 → F64
  pub mul : F64 → F64 → F64
  pub round : F64 → F64
  pub clamp : F64 → F64 → F64 → F64
  -- `as i128`
  pub to_int : F64 → ℤ
  pub ne_bytes_f32 : F32 → List ℕ
  pub ne_bytes_f64 : F64 → List ℕ
  pub length-ne_bytes_f32 : (x : F32) → length (ne_bytes_f32 x) ≡ 4
  pub length-ne_bytes_f64 : (x : F64) → length (ne_bytes_f64 x) ≡ 8

-- `out[off..].copy_from_slice(bytes)`
unfoldable pub put_bytes : ℕ → List ℕ → List ℕ → List ℕ
put_bytes off bytes out = take off out ++ (bytes ++ drop (off + length bytes) out)

-- `cfg!(target_endian = "little")`
abbrev pub target_little : TargetEndian → Bool
target_little little_endian = true
target_little big_endian = false

unfoldable pub is_little : TargetEndian → ByteOrder → Bool
is_little t little = true
is_little t big = false
is_little t native = target_little t

unfoldable pub ordered : Bool → Bool → List ℕ → List ℕ
ordered true true bytes = bytes
ordered false false bytes = bytes
ordered true false bytes = backwards bytes []
ordered false true bytes = backwards bytes []

-- `as u128`
abbrev pub to_u128 : ℤ → ℕ
to_u128 (pos n) = n
to_u128 (negsuc n) = 2 ^ 128 - 1 - n

-- `write_integer`: the low bytes, little end first or last.
unfoldable pub write_integer : ℕ → ℕ → Bool → ℕ → List ℕ → List ℕ
write_integer value width low_first off out =
    put_bytes off (ordered low_first true (take width (le_bytes 16 value))) out

-- `copy_ordered`
unfoldable pub copy_ordered : TargetEndian → List ℕ → ℕ → List ℕ → Bool → List ℕ
copy_ordered t bytes off out low_first =
    put_bytes off (ordered low_first (target_little t) bytes) out

-- `FilterError::OutputTooSmall`
pub record TooSmall : Type 0 where
  pub required : ℕ
  pub available : ℕ

module _ (fl : Floats) (t : TargetEndian) where
  -- The bits of a signed, and of an unsigned sample.
  unfoldable pub signed_integer : ℕ → fl.F32 → ℤ
  signed_integer bits value =
      let top = fl.from_int (pos (2 ^ (bits - 1) - 1)) in
      let bottom = fl.from_int (negsuc (2 ^ (bits - 1) - 1)) in
      let scale = if fl.is_negative value then fl.from_int (pos (2 ^ (bits - 1))) else top in
      fl.to_int (fl.clamp bottom top (fl.round (fl.mul (fl.to_f64 value) scale)))

  unfoldable pub unsigned_integer : ℕ → fl.F32 → ℤ
  unsigned_integer bits value =
      let top = fl.from_int (pos (2 ^ bits - 1)) in
      fl.to_int (
        fl.clamp (fl.from_int (pos 0)) top
          (fl.round (fl.mul (fl.mul (fl.add (fl.to_f64 value) (fl.from_int (pos 1))) fl.half) top)))

  unfoldable pub write_integers : PcmEncoding → Bool → fl.F32 → ℕ → List ℕ → List ℕ
  write_integers e low_first value off out =
      let integer =
        if is_signed e then signed_integer (bits e) value else unsigned_integer (bits e) value in
      write_integer (to_u128 integer) (encoding_bytes_per_sample e) low_first off out

  abbrev pub unit_value : fl.F32 → fl.F32
  unit_value value = if fl.is_finite value then fl.clamp_unit value else fl.zero_f32

  -- `write_sample` at `off`.
  unfoldable pub write_sample : PcmEncoding → ByteOrder → fl.F32 → ℕ → List ℕ → List ℕ
  write_sample f32 order value off out =
      copy_ordered t (fl.ne_bytes_f32 (unit_value value)) off out (is_little t order)
  write_sample f64 order value off out =
      copy_ordered t (fl.ne_bytes_f64 (fl.to_f64 (unit_value value))) off out (is_little t order)
  write_sample e order value off out =
      write_integers e (is_little t order) (unit_value value) off out

  -- `for (index, sample) in samples.iter().enumerate()`
  unfoldable pub write_samples : SampleSpec → ℕ → List fl.F32 → List ℕ → List ℕ
  write_samples spec index [] out = out
  write_samples spec index (sample ∷ samples) out =
      write_samples spec (index + 1) samples
        (write_sample spec.encoding spec.byte_order sample (index * bytes_per_sample spec) out)

  -- The frames of one channel, of which `more` are left.
  unfoldable pub write_frames :
      SampleSpec → List fl.F32 → (frames channel more frame : ℕ) → List ℕ → List ℕ
  write_frames spec samples frames channel zero frame out = out
  write_frames spec samples frames channel (suc more) frame out =
      write_frames spec samples frames channel more (frame + 1) (
        write_sample spec.encoding spec.byte_order
          (get_or samples (frame * spec.channels + channel) fl.zero_f32)
          ((channel * frames + frame) * bytes_per_sample spec) out)

  unfoldable pub write_channels :
      SampleSpec → List fl.F32 → (frames more channel : ℕ) → List ℕ → List ℕ
  write_channels spec samples frames zero channel out = out
  write_channels spec samples frames (suc more) channel out =
      write_channels spec samples frames more (channel + 1)
        (write_frames spec samples frames channel frames 0 out)

  unfoldable pub encode_f32 : List fl.F32 → ℕ → SampleSpec → List ℕ → Result TooSmall ℕ × List ℕ
  encode_f32 samples frames spec out =
      let required = frames * bytes_per_frame spec in
      if leb (2 ^ 64) required
      then (err (record { required = 2 ^ 64 - 1; available = length out }), out)
      else if ltb (length out) required
      then (err (record { required = required; available = length out }), out)
      else if interleave_eq spec.interleave planar
      then (ok required, write_channels spec samples frames spec.channels 0 out)
      else (ok required, write_samples spec 0 samples out)
