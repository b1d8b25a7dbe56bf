-- ===== src/Core/Spec/Valid.antt =====
-- crates/around-core/src/types.rs: what `SampleSpec::validate` and `SampleSpec::new` accept.
use around.Base.{refl, ==_iff, ℕ, ◌*◌, ◌≤◌, ◌<◌, ◌≡◌, ◌↔◌, arith, ok, true}
use around.Core.Spec.{
  SampleSpec, PcmEncoding, Interleave, ByteOrder, bits, encoding_bytes_per_sample, validate, new,
  new_interleaved, bytes_per_sample, bytes_per_frame, spec_eq, encoding_eq, encoding_index,
  interleave_eq, byte_order_eq,
}

pub record IsValid (s : SampleSpec) : Type 0 where
  pub rate_pos : 0 < s.sample_rate
  pub channels_pos : 0 < s.channels
  pub channels_max : s.channels ≤ 32

pub validate_iff : (s : SampleSpec) → (validate s ≡ ok tt) ↔ IsValid s
unfolding validate
validate_iff s = (λ h. ground arith, λ v. ground arith)

-- `SampleSpec::new` succeeds exactly for a positive rate and 1 to 32 channels, with the given fields.
pub new_iff :
    (rate ch : ℕ) (enc : PcmEncoding) (int : Interleave) (order : ByteOrder) (s : SampleSpec)
    → (new rate ch enc int order ≡ ok s) ↔ (
        IsValid s
        × (s ≡ record {
          sample_rate = rate;
          channels = ch;
          encoding = enc;
          interleave = int;
          byte_order = order;
        }))
unfolding new
new_iff rate ch enc int order s = (λ h. ground arith, λ v. ground arith)

pub bytes_per_sample_bounds : (s : SampleSpec) → (1 ≤ bytes_per_sample s) × (bytes_per_sample s ≤ 8)
unfolding bytes_per_sample bits
bytes_per_sample_bounds s = ground arith

-- A valid format's frame takes 1 to 256 bytes.
pub bytes_per_frame_bounds :
    (s : SampleSpec) → IsValid s → (1 ≤ bytes_per_frame s) × (bytes_per_frame s ≤ 256)
unfolding bytes_per_frame
bytes_per_frame_bounds s v =
    let b = bytes_per_sample_bounds s in grind (arith, b, IsValid.channels_max v)

-- Every encoding takes whole bytes, so `div_ceil` never rounds.
pub encoding_whole_bytes : (e : PcmEncoding) → 8 * encoding_bytes_per_sample e ≡ bits e
unfolding encoding_bytes_per_sample
encoding_whole_bytes e = ground arith

pub encoding_eq_iff : (d e : PcmEncoding) → (encoding_eq d e ≡ true) ↔ (d ≡ e)
unfolding encoding_eq
encoding_eq_iff d e = (λ h. ground arith, λ h. rw h (ground arith))

pub interleave_eq_iff : (d e : Interleave) → (interleave_eq d e ≡ true) ↔ (d ≡ e)
unfolding interleave_eq
interleave_eq_iff d e = (λ h. ground arith, λ h. rw h (ground arith))

pub byte_order_eq_iff : (d e : ByteOrder) → (byte_order_eq d e ≡ true) ↔ (d ≡ e)
unfolding byte_order_eq
byte_order_eq_iff d e = (λ h. ground arith, λ h. rw h (ground arith))

pub encoding_eq_comm : (d e : PcmEncoding) → encoding_eq d e ≡ encoding_eq e d
unfolding encoding_eq
encoding_eq_comm d e = ground (arith, ==_iff (encoding_index d) (encoding_index e))

-- A format compares as equal to itself in each part.
pub encoding_eq_self : (e : PcmEncoding) → encoding_eq e e ≡ true
encoding_eq_self e = (encoding_eq_iff e e).1 refl

pub interleave_eq_self : (e : Interleave) → interleave_eq e e ≡ true
interleave_eq_self e = (interleave_eq_iff e e).1 refl

pub byte_order_eq_self : (e : ByteOrder) → byte_order_eq e e ≡ true
byte_order_eq_self e = (byte_order_eq_iff e e).1 refl

-- The derived equality of formats is equality.
pub spec_eq_iff : (s t : SampleSpec) → (spec_eq s t ≡ true) ↔ (s ≡ t)
unfolding spec_eq
spec_eq_iff s t = (
  λ h. ground (
    arith,
    (encoding_eq_iff s.encoding t.encoding).0,
    (interleave_eq_iff s.interleave t.interleave).0,
    (byte_order_eq_iff s.byte_order t.byte_order).0,
  ),
  λ h. rw h (
      ground (
        arith,
        encoding_eq_self t.encoding,
        interleave_eq_self t.interleave,
        byte_order_eq_self t.byte_order,
      )),
)

pub new_interleaved-IsValid :
    (rate ch : ℕ) (enc : PcmEncoding) (s : SampleSpec)
    → new_interleaved rate ch enc ≡ ok s
    → IsValid s × (s.sample_rate ≡ rate) × (s.channels ≡ ch)
unfolding new_interleaved
new_interleaved-IsValid rate ch enc s h = ground arith
