-- ===== src/Output/Loss/Laws.antt =====
-- crates/around-engine/src/output_plan.rs: bounds and zeros of the conversion loss.
use around.Base.{◌+◌, ◌≤◌, ◌<◌, ◌≡◌, ◌↔◌, ◌⊎◌, arith}
use around.Core.Spec.{SampleSpec, PcmEncoding, bits}
use around.Core.Spec.Valid.{
  encoding_eq_comm, encoding_eq_self, interleave_eq_self, byte_order_eq_self,
}
use around.Output.Loss.{total, conversion_loss, encoding_loss, u32_max}

pub bits_bounds : (e : PcmEncoding) → (8 ≤ bits e) × (bits e ≤ 64)
unfolding bits
bits_bounds e = ground arith

-- Converting there and back costs the same in the encoding, and at most 76.
pub encoding_loss_comm :
    (d e : PcmEncoding) → (encoding_loss d e ≡ encoding_loss e d) × (encoding_loss d e ≤ 76)
unfolding encoding_loss
encoding_loss_comm d e = ground (arith, encoding_eq_comm d e, bits_bounds d, bits_bounds e)

-- To keep the format costs nothing.
pub conversion_loss_self : (s : SampleSpec) → total (conversion_loss s s) ≡ 0
unfolding total conversion_loss encoding_loss
conversion_loss_self s = ground (
  arith,
  encoding_eq_self s.encoding,
  interleave_eq_self s.interleave,
  byte_order_eq_self s.byte_order,
)

-- For `u32` rates and `u8` channel counts no addition saturates and no cast is cut off: the total is
-- the plain sum of the parts.
pub total_exact :
    (i o : SampleSpec)
    → i.sample_rate ≤ u32_max
    → o.sample_rate ≤ u32_max
    → i.channels ≤ 255
    → o.channels ≤ 255
    → let l = conversion_loss i o in
      total l ≡ l.rate + l.channels + l.interleave + l.encoding + l.byte_order
unfolding total conversion_loss
total_exact i o a b c d = ground (arith, encoding_loss_comm i.encoding o.encoding)

-- The rate costs nothing exactly where it falls by less than 10 Hz or rises by less than 100 Hz.
pub rate_loss_zero :
    (i o : SampleSpec)
    → ((conversion_loss i o).rate ≡ 0) ↔ (
        ((o.sample_rate ≤ i.sample_rate) × (i.sample_rate < o.sample_rate + 10))
        ⊎ ((i.sample_rate ≤ o.sample_rate) × (o.sample_rate < i.sample_rate + 100)))
unfolding conversion_loss
rate_loss_zero i o = (λ h. ground arith, λ h. ground arith)
