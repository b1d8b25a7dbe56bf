-- ===== src/Output/Loss.antt =====
-- crates/around-engine/src/output_plan.rs: the cost of converting one format to another.
pub mod Laws
use around.Base.{ℕ, ◌+◌, ◌*◌, ◌-◌, ◌/◌, Bool, true, false, not, ◌||◌, min, ltb, leb, if◌then◌else◌}
use around.Core.Spec.{SampleSpec, PcmEncoding, bits, is_float, is_signed, encoding_eq}
use around.Core.Spec.{interleave_eq, byte_order_eq}

-- All fields are `u32`.
pub record ConversionLoss : Type 0 where
  pub rate : ℕ
  pub channels : ℕ
  pub interleave : ℕ
  pub encoding : ℕ
  pub byte_order : ℕ

abbrev pub u32_max : ℕ
u32_max = 0xffff_ffff

-- `u32::saturating_add`
abbrev pub saturating_add : ℕ → ℕ → ℕ
saturating_add a b = min (a + b) u32_max

unfoldable pub total : ConversionLoss → ℕ
total l =
    saturating_add
      (saturating_add (saturating_add (saturating_add l.rate l.channels) l.interleave) l.encoding)
      l.byte_order

-- `u32::try_from(n).unwrap_or(u32::MAX)`
abbrev pub to_u32 : ℕ → ℕ
to_u32 n = if leb n u32_max then n else u32_max

-- `u32::from(test)`
abbrev pub from_bool : Bool → ℕ
from_bool true = 1
from_bool false = 0

-- `bool != bool`
abbrev pub bool_ne : Bool → Bool → Bool
bool_ne true b = not b
bool_ne false b = b

abbrev pub abs_diff : ℕ → ℕ → ℕ
abs_diff a b = if ltb a b then b - a else a - b

unfoldable pub encoding_loss : PcmEncoding → PcmEncoding → ℕ
encoding_loss input output =
    if encoding_eq input output
    then 0
    else (let bits = abs_diff (bits output) (bits input) in
        if bool_ne (is_float input) (is_float output)
          || bool_ne (is_signed input) (is_signed output)
        then 20 + bits
        else bits)

-- `input.sample_rate - output.sample_rate` and its like run only where they do not underflow.
unfoldable pub conversion_loss : SampleSpec → SampleSpec → ConversionLoss
conversion_loss input output = record {
  rate =
      if ltb output.sample_rate input.sample_rate
      then to_u32 ((input.sample_rate - output.sample_rate) * 100 / 1000)
      else to_u32 ((output.sample_rate - input.sample_rate) * 10 / 1000);
  channels =
      if ltb output.channels input.channels
      then (input.channels - output.channels) * 80
      else (output.channels - input.channels) * 5;
  interleave = from_bool (not (interleave_eq input.interleave output.interleave));
  encoding = encoding_loss input.encoding output.encoding;
  byte_order = from_bool (not (byte_order_eq input.byte_order output.byte_order));
}
