-- ===== src/Core/Tests.antt =====
-- Runs of `SampleSpec` of crates/around-core/src/types.rs.
use around.Base.{◌≡◌, ◌↔◌, arith, ok}
use around.Core.Spec.{SampleSpec, i24, planar, little, new}
use around.Core.Spec.Valid.{IsValid, new_iff}

abbrev surround : SampleSpec
surround = record {
  sample_rate = 48000;
  channels = 6;
  encoding = i24;
  interleave = planar;
  byte_order = little;
}

surround-IsValid : IsValid surround
surround-IsValid = record {
  rate_pos = ground arith;
  channels_pos = ground arith;
  channels_max = ground arith;
}

new_iff_run : (new 48000 6 i24 planar little ≡ ok surround) ↔ (
    IsValid surround
    × (surround ≡ record {
      sample_rate = 48000;
      channels = 6;
      encoding = i24;
      interleave = planar;
      byte_order = little;
    }))
new_iff_run = new_iff 48000 6 i24 planar little surround
