-- ===== src/Core/Spec.antt =====
-- crates/around-core/src/types.rs: PCM encodings and `SampleSpec`. A `u8`, `u16`, `u32` or `usize`
-- is a native number; the fields' ranges are hypotheses where a theorem needs them.
pub mod Valid
use around.Base.{
  ℕ, ◌+◌, ◌*◌, ◌/◌, ◌≤◌, Bool, true, false, ◌||◌, ◌&&◌, ◌≡◌, ◌↔◌, arith, Result, ok, err, ◌>>=◌,
  ◌>>◌, ltb, ◌==◌, if◌then◌else◌,
}

pub data Interleave : Type 0 where
  interleaved planar : Interleave

pub data PcmEncoding : Type 0 where
  i8 i16 i24 i32 i48 i64 u8 u16 u24 u32 u48 u64 f32 f64 : PcmEncoding

pub data ByteOrder : Type 0 where
  native little big : ByteOrder

-- The constructors' positions, by which values are compared.
abbrev pub interleave_index : Interleave → ℕ
interleave_index interleaved = 0
interleave_index planar = 1

abbrev pub encoding_index : PcmEncoding → ℕ
encoding_index i8 = 0
encoding_index i16 = 1
encoding_index i24 = 2
encoding_index i32 = 3
encoding_index i48 = 4
encoding_index i64 = 5
encoding_index u8 = 6
encoding_index u16 = 7
encoding_index u24 = 8
encoding_index u32 = 9
encoding_index u48 = 10
encoding_index u64 = 11
encoding_index f32 = 12
encoding_index f64 = 13

abbrev pub byte_order_index : ByteOrder → ℕ
byte_order_index native = 0
byte_order_index little = 1
byte_order_index big = 2

unfoldable pub bits : PcmEncoding → ℕ
bits i8 = 8
bits u8 = 8
bits i16 = 16
bits u16 = 16
bits i24 = 24
bits u24 = 24
bits i32 = 32
bits u32 = 32
bits f32 = 32
bits i48 = 48
bits u48 = 48
bits i64 = 64
bits u64 = 64
bits f64 = 64

-- `(bits as usize).div_ceil(8)`
unfoldable pub encoding_bytes_per_sample : PcmEncoding → ℕ
unfolding bits
encoding_bytes_per_sample e = (bits e + 7) / 8

unfoldable pub is_float : PcmEncoding → Bool
is_float f32 = true
is_float f64 = true
is_float _ = false

unfoldable pub is_signed : PcmEncoding → Bool
is_signed i8 = true
is_signed i16 = true
is_signed i24 = true
is_signed i32 = true
is_signed i48 = true
is_signed i64 = true
is_signed _ = false

unfoldable pub is_unsigned : PcmEncoding → Bool
is_unsigned u8 = true
is_unsigned u16 = true
is_unsigned u24 = true
is_unsigned u32 = true
is_unsigned u48 = true
is_unsigned u64 = true
is_unsigned _ = false

-- The target's endianness, which the source reads by `cfg!(target_endian = ...)`.
pub data TargetEndian : Type 0 where
  little_endian big_endian : TargetEndian

unfoldable pub is_native : TargetEndian → ByteOrder → Bool
is_native t native = true
is_native little_endian little = true
is_native little_endian big = false
is_native big_endian little = false
is_native big_endian big = true

pub record SampleSpec : Type 0 where
  pub sample_rate : ℕ
  pub channels : ℕ
  pub encoding : PcmEncoding
  pub interleave : Interleave
  pub byte_order : ByteOrder

-- `==` of the derived `PartialEq`s.
unfoldable pub encoding_eq : PcmEncoding → PcmEncoding → Bool
encoding_eq d e = encoding_index d == encoding_index e

unfoldable pub interleave_eq : Interleave → Interleave → Bool
interleave_eq d e = interleave_index d == interleave_index e

unfoldable pub byte_order_eq : ByteOrder → ByteOrder → Bool
byte_order_eq d e = byte_order_index d == byte_order_index e

unfoldable pub spec_eq : SampleSpec → SampleSpec → Bool
spec_eq s t =
    s.sample_rate == t.sample_rate
    && s.channels == t.channels
    && encoding_eq s.encoding t.encoding
    && interleave_eq s.interleave t.interleave
    && byte_order_eq s.byte_order t.byte_order

-- The two messages of `SampleSpec::validate`.
pub data SpecError : Type 0 where
  zero_sample_rate channels_out_of_range : SpecError

unfoldable pub validate : SampleSpec → Result SpecError (Unit {0})
validate s =
    if s.sample_rate == 0
    then err zero_sample_rate
    else if s.channels == 0 || ltb 32 s.channels
    then err channels_out_of_range
    else ok tt

-- `SampleSpec::new`
unfoldable pub new : ℕ → ℕ → PcmEncoding → Interleave → ByteOrder → Result SpecError SampleSpec
unfolding validate
new rate ch enc int order = do
  let spec : SampleSpec = record {
    sample_rate = rate;
    channels = ch;
    encoding = enc;
    interleave = int;
    byte_order = order;
  }
  validate spec
  ok spec

-- `SampleSpec::interleaved`
unfoldable pub new_interleaved : ℕ → ℕ → PcmEncoding → Result SpecError SampleSpec
unfolding new
new_interleaved rate ch enc = new rate ch enc interleaved native

unfoldable pub bytes_per_sample : SampleSpec → ℕ
unfolding encoding_bytes_per_sample
bytes_per_sample s = encoding_bytes_per_sample s.encoding

unfoldable pub bytes_per_frame : SampleSpec → ℕ
unfolding bytes_per_sample
bytes_per_frame s = bytes_per_sample s * s.channels
