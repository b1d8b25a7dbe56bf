-- ===== src/Codec/Wav/Samples.antt =====
-- crates/around-codec-wav/src/lib.rs: a sample's bytes as a number.
-- The `f32` operations are a parameter: the conversion of an integer and the division by a power of
-- two, both exact for the values that occur up to 24 bits.
use around.Base.{ℕ, ◌+◌, ◌-◌, ◌*◌, ◌%◌, ◌^◌, ltb, leb, ◌==◌, if◌then◌else◌, List, get_or}
use around.Base.Int.{ℤ, pos, negsuc}
use around.Codec.Bytes.{u16_at, u32_at}

pub record Floats : Type 1 where
  pub F32 : Type 0
  pub zero_f32 : F32
  pub from_int : ℤ → F32
  pub div_f32 : F32 → ℕ → F32

-- `as i8`, `as i16` and `as i32`: `w` bits in two's complement.
unfoldable pub signed : ℕ → ℕ → ℤ
signed w v = if ltb v (2 ^ (w - 1)) then pos v else negsuc (2 ^ w - 1 - v)

-- The byte that makes a 24-bit sample an `i32` of the same sign.
unfoldable pub sign_byte : ℕ → ℕ
sign_byte top = if leb 128 (top % 256) then 255 else 0

module _ (fl : Floats) where
  -- The sample at `offset` of one frame's bytes.
  unfoldable pub sample_f32 : ℕ → List ℕ → ℕ → fl.F32
  sample_f32 bit_depth raw offset =
      if bit_depth == 8
      then fl.div_f32 (fl.from_int (signed 8 (get_or raw offset 0))) 128
      else if bit_depth == 16
      then fl.div_f32 (fl.from_int (signed 16 (u16_at offset raw))) 32768
      else if bit_depth == 24
      then fl.div_f32
          (fl.from_int (
            signed 32 (
              u16_at offset raw
              + 65536 * get_or raw (offset + 2) 0
              + 16777216 * sign_byte (get_or raw (offset + 2) 0))))
          8388608
      else if bit_depth == 32
      then fl.div_f32 (fl.from_int (signed 32 (u32_at offset raw))) 2147483648
      else fl.zero_f32
