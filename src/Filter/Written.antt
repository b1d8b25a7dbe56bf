-- ===== src/Filter/Written.antt =====
-- crates/around-engine/src/filter_chain.rs: one sample is written into its own bytes.
use around.Base.{
  length-backwards, ℕ, zero, suc, ◌+◌, ◌-◌, ◌≤◌, Bool, true, false, if◌then◌else◌, List, [], ◌∷◌,
  ◌++◌, length, take, drop, length-append, length-take, length-drop, drop-drop, ◌≡◌, refl, ap, ◌∙◌,
  arith,
}
use around.Codec.Wav.Written.{length-le_bytes}
use around.Codec.Bytes.{le_bytes}
use around.Core.Spec.{
  i8, i16, i24, i32, i48, i64, u8, u16, u24, u32, u48, u64, f32, f64, is_signed, bits, PcmEncoding,
  ByteOrder, TargetEndian, encoding_bytes_per_sample,
}
use around.Filter.Encode.{
  unsigned_integer, signed_integer, unit_value, is_little, to_u128, target_little, Floats,
  put_bytes, ordered, write_integer, copy_ordered, write_integers, write_sample,
}

-- `after` is as long as `out` and agrees with it from byte `n` on.
pub record Within (n : ℕ) (out after : List ℕ) : Type 0 where
  pub same_length : length after ≡ length out
  pub beyond : drop n after ≡ drop n out

pub Within-self : (n : ℕ) (out : List ℕ) → Within n out out
Within-self n out = record { same_length = refl; beyond = refl }

pub Within-trans :
    (n : ℕ) {out middle after : List ℕ}
    → Within n out middle
    → Within n middle after
    → Within n out after
Within-trans n h k = record {
  same_length = k.same_length ∙ h.same_length;
  beyond = k.beyond ∙ h.beyond;
}

drop-append_ge :
    (n : ℕ) (xs ys : List ℕ) → length xs ≤ n → drop n (xs ++ ys) ≡ drop (n - length xs) ys
drop-append_ge n [] ys le = ap (λ k. drop k ys) (omega arith)
drop-append_ge zero (x ∷ xs) ys le = absurd (omega (arith, le))
drop-append_ge (suc n) (x ∷ xs) ys le =
    drop-append_ge n xs ys (omega (arith, le)) ∙ ap (λ k. drop k ys) (omega arith)

put_bytes-Within :
    (n off : ℕ) (bytes out : List ℕ)
    → off + length bytes ≤ n
    → n ≤ length out
    → Within n out (put_bytes off bytes out)
unfolding put_bytes
put_bytes-Within n off bytes out inside fits =
    let front : length (take off out) ≡ off = omega (arith, length-take off out, inside, fits) in
    let back = length-drop (off + length bytes) out in
    let left = n - length (take off out) in
    record {
      same_length = omega (
        arith,
        front,
        back,
        inside,
        fits,
        length-append (take off out) (bytes ++ drop (off + length bytes) out),
        length-append bytes (drop (off + length bytes) out),
      );
      beyond =
          drop-append_ge n (take off out) _ (omega (arith, front, inside))
          ∙ drop-append_ge left bytes _ (omega (arith, front, inside))
          ∙ drop-drop (off + length bytes) (left - length bytes) out
          ∙ ap (λ k. drop k out) (omega (arith, front, inside));
    }

ordered-length : (a b : Bool) (bytes : List ℕ) → length (ordered a b bytes) ≡ length bytes
unfolding ordered
ordered-length true true bytes = refl
ordered-length false false bytes = refl
ordered-length true false bytes = omega (arith, length-backwards bytes [])
ordered-length false true bytes = omega (arith, length-backwards bytes [])

width_le : (e : PcmEncoding) → encoding_bytes_per_sample e ≤ 16
unfolding encoding_bytes_per_sample bits
width_le i8 = omega arith
width_le i16 = omega arith
width_le i24 = omega arith
width_le i32 = omega arith
width_le i48 = omega arith
width_le i64 = omega arith
width_le u8 = omega arith
width_le u16 = omega arith
width_le u24 = omega arith
width_le u32 = omega arith
width_le u48 = omega arith
width_le u64 = omega arith
width_le f32 = omega arith
width_le f64 = omega arith

module _ (fl : Floats) (t : TargetEndian) (n : ℕ) where
  write_integers-Within :
      (e : PcmEncoding) (low_first : Bool) (value : fl.F32) (off : ℕ) (out : List ℕ)
      → off + encoding_bytes_per_sample e ≤ n
      → n ≤ length out
      → Within n out (write_integers fl t e low_first value off out)
  unfolding write_integers write_integer
  write_integers-Within e low_first value off out inside fits =
      let v = to_u128 (
        if is_signed e
        then signed_integer fl t (bits e) value
        else unsigned_integer fl t (bits e) value) in
      let bytes = take (encoding_bytes_per_sample e) (le_bytes 16 v) in
      let width : length (ordered low_first true bytes) ≡ encoding_bytes_per_sample e = omega (
        arith,
        ordered-length low_first true bytes,
        length-take (encoding_bytes_per_sample e) (le_bytes 16 v),
        length-le_bytes 16 v,
        width_le e,
      ) in
      put_bytes-Within n off (ordered low_first true bytes) out (omega (arith, width, inside)) fits

  copy_ordered-Within :
      (bytes : List ℕ) (low_first : Bool) (off width : ℕ) (out : List ℕ)
      → length bytes ≡ width
      → off + width ≤ n
      → n ≤ length out
      → Within n out (copy_ordered t bytes off out low_first)
  unfolding copy_ordered
  copy_ordered-Within bytes low_first off width out long inside fits =
      let same = ordered-length low_first (target_little t) bytes in
      put_bytes-Within n off _ out (omega (arith, same, long, inside)) fits

  pub write_sample-Within :
      (e : PcmEncoding) (order : ByteOrder) (value : fl.F32) (off : ℕ) (out : List ℕ)
      → off + encoding_bytes_per_sample e ≤ n
      → n ≤ length out
      → Within n out (write_sample fl t e order value off out)
  unfolding write_sample encoding_bytes_per_sample bits
  write_sample-Within i8 order value off out inside fits =
      write_integers-Within i8 (is_little t order) (unit_value fl t value) off out inside fits
  write_sample-Within i16 order value off out inside fits =
      write_integers-Within i16 (is_little t order) (unit_value fl t value) off out inside fits
  write_sample-Within i24 order value off out inside fits =
      write_integers-Within i24 (is_little t order) (unit_value fl t value) off out inside fits
  write_sample-Within i32 order value off out inside fits =
      write_integers-Within i32 (is_little t order) (unit_value fl t value) off out inside fits
  write_sample-Within i48 order value off out inside fits =
      write_integers-Within i48 (is_little t order) (unit_value fl t value) off out inside fits
  write_sample-Within i64 order value off out inside fits =
      write_integers-Within i64 (is_little t order) (unit_value fl t value) off out inside fits
  write_sample-Within u8 order value off out inside fits =
      write_integers-Within u8 (is_little t order) (unit_value fl t value) off out inside fits
  write_sample-Within u16 order value off out inside fits =
      write_integers-Within u16 (is_little t order) (unit_value fl t value) off out inside fits
  write_sample-Within u24 order value off out inside fits =
      write_integers-Within u24 (is_little t order) (unit_value fl t value) off out inside fits
  write_sample-Within u32 order value off out inside fits =
      write_integers-Within u32 (is_little t order) (unit_value fl t value) off out inside fits
  write_sample-Within u48 order value off out inside fits =
      write_integers-Within u48 (is_little t order) (unit_value fl t value) off out inside fits
  write_sample-Within u64 order value off out inside fits =
      write_integers-Within u64 (is_little t order) (unit_value fl t value) off out inside fits
  write_sample-Within f32 order value off out inside fits =
      copy_ordered-Within _ (is_little t order) off 4 out (fl.length-ne_bytes_f32 _) inside fits
  write_sample-Within f64 order value off out inside fits =
      copy_ordered-Within _ (is_little t order) off 8 out (fl.length-ne_bytes_f64 _) inside fits
