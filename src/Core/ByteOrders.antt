-- ===== src/Core/ByteOrders.antt =====
-- crates/around-core/src/audio_buffer.rs: samples keep their values when their byte order is changed.
use around.Base.{
  backwards, length-backwards, length-append, ℕ, zero, suc, ◌*◌, ◌/◌, ◌%◌, ◌≤◌, true, false, not,
  ◌==◌, ◌&&◌, List, [], ◌∷◌, ◌++◌, length, take, drop, ok, err, ◌≡◌, refl, ap, ◌∙◌, subst, arith,
  inl, inr, Bool-cases, length-take, length-drop, take_all, drop_all, ◌⊎◌, ◌≢◌, ==_iff, sym, ◌+◌,
  Result,
}
use around.Core.Spec.{ByteOrder, is_native, SampleSpec, TargetEndian, bytes_per_sample}
use around.Core.Buffer.{AudioBufferError, frame_alignment, reverse_chunks, normalize_byte_order}
use mathlib.Core.List.{append-nil}
use native.Mathlib.Nat.{suc-mul, div-mul-le_self}

backwards-backwards :
    (bytes done rest : List ℕ)
    → backwards (backwards bytes done) rest ≡ backwards done (bytes ++ rest)
backwards-backwards [] done rest = refl
backwards-backwards (b ∷ bytes) done rest = backwards-backwards bytes (b ∷ done) rest

backwards_twice : (bytes : List ℕ) → backwards (backwards bytes []) [] ≡ bytes
backwards_twice bytes = backwards-backwards bytes [] [] ∙ append-nil bytes

take_chunk : (n : ℕ) (xs ys : List ℕ) → length xs ≡ n → take n (xs ++ ys) ≡ xs
take_chunk n xs ys e = subst (λ k. take k (xs ++ ys) ≡ xs) e (take_all xs ys)

drop_chunk : (n : ℕ) (xs ys : List ℕ) → length xs ≡ n → drop n (xs ++ ys) ≡ ys
drop_chunk n xs ys e = subst (λ k. drop k (xs ++ ys) ≡ ys) e (drop_all xs ys)

chunks_le : (n width : ℕ) → n / width * width ≤ n
chunks_le n width = div-mul-le_self n width

-- Bytes as a number, the lowest or the highest byte first.
abbrev le_number : List ℕ → ℕ
le_number [] = 0
le_number (b ∷ bytes) = b + 256 * le_number bytes

abbrev be_number : List ℕ → ℕ → ℕ
be_number [] high = high
be_number (b ∷ bytes) high = be_number bytes (b + 256 * high)

-- The number that bytes in an order stand for on a machine.
unfoldable pub value : TargetEndian → ByteOrder → List ℕ → ℕ
value t ByteOrder.little bytes = le_number bytes
value t ByteOrder.big bytes = be_number bytes 0
value TargetEndian.little_endian ByteOrder.native bytes = le_number bytes
value TargetEndian.big_endian ByteOrder.native bytes = be_number bytes 0

-- The first `n` samples of `width` bytes.
unfoldable pub values : TargetEndian → ByteOrder → ℕ → ℕ → List ℕ → List ℕ
values t order zero width bytes = []
values t order (suc n) width bytes =
    value t order (take width bytes) ∷ values t order n width (drop width bytes)

le_number-backwards :
    (bytes done : List ℕ) → le_number (backwards bytes done) ≡ be_number bytes (le_number done)
le_number-backwards [] done = refl
le_number-backwards (b ∷ bytes) done = le_number-backwards bytes (b ∷ done)

be_number-backwards : (bytes : List ℕ) → be_number (backwards bytes []) 0 ≡ le_number bytes
be_number-backwards bytes =
    sym (le_number-backwards (backwards bytes []) []) ∙ ap le_number (backwards_twice bytes)

value_native :
    (t : TargetEndian) (order : ByteOrder) (bytes : List ℕ)
    → is_native t order ≡ true
    → value t ByteOrder.native bytes ≡ value t order bytes
unfolding is_native value
value_native t ByteOrder.native bytes h = refl
value_native TargetEndian.little_endian ByteOrder.little bytes h = refl
value_native TargetEndian.little_endian ByteOrder.big bytes h = cc
value_native TargetEndian.big_endian ByteOrder.little bytes h = cc
value_native TargetEndian.big_endian ByteOrder.big bytes h = refl

value_swapped :
    (t : TargetEndian) (order : ByteOrder) (bytes : List ℕ)
    → is_native t order ≡ false
    → value t ByteOrder.native (backwards bytes []) ≡ value t order bytes
unfolding is_native value
value_swapped t ByteOrder.native bytes h = cc
value_swapped TargetEndian.little_endian ByteOrder.little bytes h = cc
value_swapped TargetEndian.little_endian ByteOrder.big bytes h = le_number-backwards bytes []
value_swapped TargetEndian.big_endian ByteOrder.little bytes h = be_number-backwards bytes
value_swapped TargetEndian.big_endian ByteOrder.big bytes h = cc

-- One byte is the same number in every order.
value_byte :
    (t : TargetEndian) (order : ByteOrder) (bytes : List ℕ)
    → value t order (take 1 bytes) ≡ le_number (take 1 bytes)
unfolding value
value_byte t ByteOrder.little bytes = refl
value_byte TargetEndian.little_endian ByteOrder.native bytes = refl
value_byte TargetEndian.big_endian ByteOrder.native [] = refl
value_byte TargetEndian.big_endian ByteOrder.native (b ∷ bytes) = refl
value_byte t ByteOrder.big [] = refl
value_byte t ByteOrder.big (b ∷ bytes) = refl

both : {x y : ℕ} {xs ys : List ℕ} → x ≡ y → xs ≡ ys → x ∷ xs ≡ y ∷ ys
both same rest = cc

module _ (t : TargetEndian) (order : ByteOrder) where
  values_native :
      (n width : ℕ) (bytes : List ℕ)
      → is_native t order ≡ true
      → values t ByteOrder.native n width bytes ≡ values t order n width bytes
  unfolding values
  values_native zero width bytes h = refl
  values_native (suc n) width bytes h =
      both (value_native t order (take width bytes) h) (values_native n width (drop width bytes) h)

  values_bytes :
      (n : ℕ) (bytes : List ℕ) → values t ByteOrder.native n 1 bytes ≡ values t order n 1 bytes
  unfolding values
  values_bytes zero bytes = refl
  values_bytes (suc n) bytes =
      both (value_byte t ByteOrder.native bytes ∙ sym (value_byte t order bytes))
        (values_bytes n (drop 1 bytes))

  values_reversed :
      (n width : ℕ) (bytes : List ℕ)
      → is_native t order ≡ false
      → n * width ≤ length bytes
      → values t ByteOrder.native n width (reverse_chunks n width bytes)
        ≡ values t order n width bytes
  unfolding reverse_chunks values
  values_reversed zero width bytes h fits = refl
  values_reversed (suc n) width bytes h fits =
      let first = backwards (take width bytes) [] in
      let more = reverse_chunks n width (drop width bytes) in
      let room : width ≤ length bytes = omega (arith, suc-mul n width, fits) in
      let wide : length first ≡ width =
        omega (arith, length-backwards (take width bytes) [], length-take width bytes, room) in
      let left : n * width ≤ length (drop width bytes) =
        omega (arith, suc-mul n width, fits, length-drop width bytes) in
      both
        (ap (value t ByteOrder.native) (take_chunk width first more wide)
          ∙ value_swapped t order (take width bytes) h)
        (ap (values t ByteOrder.native n width) (drop_chunk width first more wide)
          ∙ values_reversed n width (drop width bytes) h left)

reverse_chunks-length :
    (n width : ℕ) (bytes : List ℕ) → length (reverse_chunks n width bytes) ≡ length bytes
unfolding reverse_chunks
reverse_chunks-length zero width bytes = refl
reverse_chunks-length (suc n) width bytes =
    let first = backwards (take width bytes) [] in
    omega (
      arith,
      length-append first (reverse_chunks n width (drop width bytes)),
      reverse_chunks-length n width (drop width bytes),
      length-backwards (take width bytes) [],
      length-take width bytes,
      length-drop width bytes,
    )

-- What `normalize_byte_order` makes of the bytes of whole samples.
pub record Normalized (t : TargetEndian) (spec : SampleSpec) (bytes : List ℕ)
    (answer : Result AudioBufferError (Unit {0}) × List ℕ) : Type 0 where
  pub accepted : answer.0 ≡ ok tt
  pub same_length : length answer.1 ≡ length bytes
  pub same_samples :
      let width = bytes_per_sample spec in
      let n = length bytes / width in
      values t ByteOrder.native n width answer.1 ≡ values t spec.byte_order n width bytes

-- Where `normalize_byte_order` accepts bytes, on a machine of either endianness, its result in the
-- machine's own order stands for the same sample values as the bytes in the order of the format, and
-- has as many bytes. It refuses bytes, and leaves them as they are, only where they are no whole samples.
pub normalize_byte_order_lem :
    (t : TargetEndian) (spec : SampleSpec) (bytes : List ℕ)
    → let width = bytes_per_sample spec in
      Normalized t spec bytes (normalize_byte_order t spec bytes)
      ⊎ ((normalize_byte_order t spec bytes ≡ (err (frame_alignment (length bytes) width), bytes))
          × (length bytes % width ≢ 0))
unfolding normalize_byte_order
normalize_byte_order_lem t spec bytes =
    let width = bytes_per_sample spec in
    let n = length bytes / width in
    elim (Bool-cases (is_native t spec.byte_order)) [
      | inl native ↦ rw native (
          inl (record {
            accepted = refl;
            same_length = refl;
            same_samples = values_native t spec.byte_order n width bytes native;
          }))
      | inr other ↦ rw other (elim (Bool-cases (width == 1)) [
        | inl one ↦ rw one (
            inl (record {
              accepted = refl;
              same_length = refl;
              same_samples =
                  subst
                    (λ w. values t ByteOrder.native n w bytes ≡ values t spec.byte_order n w bytes)
                    (sym ((==_iff width 1).0 one)) (values_bytes t spec.byte_order n bytes);
            }))
        | inr wide ↦
            rw wide (elim (Bool-cases (not (width == 0) && not (length bytes % width == 0))) [
              | inl bad ↦ rw bad (inr (refl, ground arith))
              | inr good ↦ rw good (
                  inl (record {
                    accepted = refl;
                    same_length = reverse_chunks-length n width bytes;
                    same_samples =
                        values_reversed t spec.byte_order n width bytes other
                          (chunks_le (length bytes) width);
                  }))
            ])
      ])
    ]
