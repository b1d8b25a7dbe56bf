-- ===== src/Codec/Wav/Decoding.antt =====
-- crates/around-codec-wav/src/lib.rs: a sample is read back from its bytes.
use around.Base.{
  ℕ, zero, suc, ◌+◌, ◌-◌, ◌*◌, ◌/◌, ◌%◌, ◌<◌, ◌^◌, ◌==◌, inl, inr, ◌⊎◌, Bool-cases, leb, true,
  false, ltb, lt→ltb, List, [], ◌∷◌, ◌++◌, length, get_or, ◌≡◌, refl, ap, sym, subst, arith,
}
use around.Base.Int.{ℤ, pos, negsuc}
use around.Codec.Bytes.{le_bytes, u16_at, u32_at}
use around.Codec.Wav.Header.{is_depth}
use around.Codec.Wav.Samples.{Floats, sample_f32, signed, sign_byte}

-- An integer in two's complement on `w` bits.
unfoldable pub twos : ℕ → ℤ → ℕ
twos w (pos n) = n
twos w (negsuc n) = 2 ^ w - 1 - n

abbrev pub magnitude : ℤ → ℕ
magnitude (pos n) = n
magnitude (negsuc n) = n

-- `v` is one of the integers on `w` bits.
abbrev pub Fits : ℕ → ℤ → Type 0
Fits w v = magnitude v < 2 ^ (w - 1)

get_or-append :
    (xs ys : List ℕ) (k i : ℕ) → i ≡ length xs + k → get_or (xs ++ ys) i 0 ≡ get_or ys k 0
get_or-append [] ys k i e = let e' : i ≡ k = omega arith in rw e' refl
get_or-append (x ∷ xs) ys k zero e = absurd (omega arith)
get_or-append (x ∷ xs) ys k (suc i) e = get_or-append xs ys k i (omega arith)

module _ (before rest : List ℕ) where
  u16_at-append : (k i : ℕ) → i ≡ length before + k → u16_at i (before ++ rest) ≡ u16_at k rest
  unfolding u16_at
  u16_at-append k i e = omega (
    arith,
    get_or-append before rest k i e,
    get_or-append before rest (k + 1) (i + 1) (omega arith),
  )

  u32_at-append : u32_at (length before) (before ++ rest) ≡ u32_at 0 rest
  unfolding u32_at
  u32_at-append = omega (
    arith,
    u16_at-append 0 (length before) (omega arith),
    u16_at-append 2 (length before + 2) refl,
  )

twos-lt : (w : ℕ) (v : ℤ) → 2 ^ (w - 1) + 2 ^ (w - 1) ≡ 2 ^ w → Fits w v → twos w v < 2 ^ w
unfolding twos
twos-lt w (pos n) e h = omega (arith, e, h)
twos-lt w (negsuc n) e h = omega (arith, e, h)

-- Reading two's complement gives the integer back.
signed-twos :
    (w : ℕ) (v : ℤ) → 2 ^ (w - 1) + 2 ^ (w - 1) ≡ 2 ^ w → Fits w v → signed w (twos w v) ≡ v
unfolding signed twos
signed-twos w (pos n) e h = rw (lt→ltb n (2 ^ (w - 1)) h) refl
signed-twos w (negsuc n) e h =
    let high : ltb (2 ^ w - 1 - n) (2 ^ (w - 1)) ≡ false = ground (arith, e, h) in
    let same : 2 ^ w - 1 - (2 ^ w - 1 - n) ≡ n = omega (arith, e, h) in rw high (ap negsuc same)

le_2 : (x : ℕ) (rest : List ℕ) → x < 2 ^ 16 → u16_at 0 (le_bytes 2 x ++ rest) ≡ x
unfolding u16_at le_bytes
le_2 x rest h = omega (arith, h)

le_4 : (x : ℕ) (rest : List ℕ) → x < 2 ^ 32 → u32_at 0 (le_bytes 4 x ++ rest) ≡ x
unfolding u16_at u32_at le_bytes
le_4 x rest h = omega (arith, h)

-- Three bytes and the byte of their sign.
le_3 :
    (v : ℤ) (rest : List ℕ)
    → Fits 24 v
    → (u16_at 0 (le_bytes 3 (twos 24 v) ++ rest)
        + 65536 * get_or (le_bytes 3 (twos 24 v) ++ rest) 2 0
        + 16777216 * sign_byte (get_or (le_bytes 3 (twos 24 v) ++ rest) 2 0))
      ≡ twos 32 v
unfolding u16_at le_bytes sign_byte twos
le_3 (pos n) rest h =
    let low : leb 128 (n / 256 / 256 % 256 % 256) ≡ false = ground (arith, h) in
    rw low (omega (arith, h))
le_3 (negsuc n) rest h =
    let high : leb 128 ((2 ^ 24 - 1 - n) / 256 / 256 % 256 % 256) ≡ true = ground (arith, h) in
    rw high (omega (arith, h))

module _ (fl : Floats) (before rest : List ℕ) (v : ℤ) where
  sample_8 :
      Fits 8 v
      → sample_f32 fl 8 (before ++ (le_bytes 1 (twos 8 v) ++ rest)) (length before)
        ≡ fl.div_f32 (fl.from_int v) 128
  unfolding sample_f32 le_bytes
  sample_8 h =
      let low : twos 8 v % 256 ≡ twos 8 v = omega (arith, twos-lt 8 v refl h) in
      rw (get_or-append before (twos 8 v % 256 ∷ rest) 0 (length before) (omega arith))
        (rw low (rw (signed-twos 8 v refl h) refl))

  sample_16 :
      Fits 16 v
      → sample_f32 fl 16 (before ++ (le_bytes 2 (twos 16 v) ++ rest)) (length before)
        ≡ fl.div_f32 (fl.from_int v) 32768
  unfolding sample_f32
  sample_16 h =
      rw (u16_at-append before (le_bytes 2 (twos 16 v) ++ rest) 0 (length before) (omega arith))
        (rw (le_2 (twos 16 v) rest (twos-lt 16 v refl h)) (rw (signed-twos 16 v refl h) refl))

  sample_24 :
      Fits 24 v
      → sample_f32 fl 24 (before ++ (le_bytes 3 (twos 24 v) ++ rest)) (length before)
        ≡ fl.div_f32 (fl.from_int v) 8388608
  unfolding sample_f32
  sample_24 h =
      rw
        (
          u16_at-append before (le_bytes 3 (twos 24 v) ++ rest) 0 (length before) (omega arith),
          get_or-append before (le_bytes 3 (twos 24 v) ++ rest) 2 (length before + 2) refl,
        )
        (rw (le_3 v rest h) (rw (signed-twos 32 v refl (omega (arith, h))) refl))

  sample_32 :
      Fits 32 v
      → sample_f32 fl 32 (before ++ (le_bytes 4 (twos 32 v) ++ rest)) (length before)
        ≡ fl.div_f32 (fl.from_int v) 2147483648
  unfolding sample_f32
  sample_32 h =
      rw (u32_at-append before (le_bytes 4 (twos 32 v) ++ rest))
        (rw (le_4 (twos 32 v) rest (twos-lt 32 v refl h)) (rw (signed-twos 32 v refl h) refl))

-- A bit depth that a header can have is one of four.
is_depth-cases : (d : ℕ) → is_depth d ≡ true → (d ≡ 8) ⊎ ((d ≡ 16) ⊎ ((d ≡ 24) ⊎ (d ≡ 32)))
is_depth-cases d h = elim (Bool-cases (d == 8)) [
  | inl e ↦ inl (ground arith)
  | inr ne8 ↦ elim (Bool-cases (d == 16)) [
    | inl e ↦ inr (inl (ground arith))
    | inr ne16 ↦ elim (Bool-cases (d == 24)) [
      | inl e ↦ inr (inr (inl (ground arith)))
      | inr ne24 ↦ inr (inr (inr (ground arith)))
    ]
  ]
]

abbrev ReadAs : Floats → List ℕ → List ℕ → ℤ → ℕ → Type 0
ReadAs fl before rest v d =
    Fits d v
    → sample_f32 fl d (before ++ (le_bytes (d / 8) (twos d v) ++ rest)) (length before)
      ≡ fl.div_f32 (fl.from_int v) (2 ^ (d - 1))

-- An integer of `d` bits that stands in a frame in two's complement, little end first, is converted to
-- the float of that integer over 2 ^ (d - 1), for each bit depth that `open` accepts.
pub sample_f32-le_bytes :
    (fl : Floats) (before rest : List ℕ) (v : ℤ) (d : ℕ)
    → is_depth d ≡ true
    → Fits d v
    → sample_f32 fl d (before ++ (le_bytes (d / 8) (twos d v) ++ rest)) (length before)
      ≡ fl.div_f32 (fl.from_int v) (2 ^ (d - 1))
sample_f32-le_bytes fl before rest v d known h = elim (is_depth-cases d known) [
  | inl e ↦ subst (ReadAs fl before rest v) (sym e) (sample_8 fl before rest v) h
  | inr (inl e) ↦ subst (ReadAs fl before rest v) (sym e) (sample_16 fl before rest v) h
  | inr (inr (inl e)) ↦ subst (ReadAs fl before rest v) (sym e) (sample_24 fl before rest v) h
  | inr (inr (inr e)) ↦ subst (ReadAs fl before rest v) (sym e) (sample_32 fl before rest v) h
]
