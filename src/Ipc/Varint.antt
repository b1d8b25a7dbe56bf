-- ===== src/Ipc/Varint.antt =====
-- crates/around-engine/src/ipc/codec_proto.rs: `encode_varint` and `decode_varint`.
-- On a byte `& 0x7f` is `% 128`, and `& 0x80` tests for 128 and more. `value |= group << shift` adds,
-- since `value` lies below `2 ^ shift`.
use native.Mathlib.Nat.{div-add-mod, pow-le-pow_right, mul-le-mul_right}
use native.Mathlib.Numerals.{towards_suc}
use around.Base.{
  ℕ, zero, suc, ◌+◌, ◌*◌, ◌/◌, ◌%◌, ◌^◌, ◌≤◌, ◌<◌, ltb, leb, ◌==◌, if◌then◌else◌, ◌≡◌, ap, ◌∙◌,
  arith, Option, none, some, List, [], ◌∷◌, ◌++◌, length, inl, inr, Bool-cases,
}

-- The loop of `encode_varint`; a `u64` has at most ten groups of seven bits.
unfoldable pub encode_loop : ℕ → ℕ → List ℕ
encode_loop zero value = []
encode_loop (suc fuel) value =
    let rest = encode_loop fuel (value / 128) in
    if value / 128 == 0 then value % 128 ∷ [] else (value % 128 + 128) ∷ rest

unfoldable pub encode_varint : ℕ → List ℕ → List ℕ
encode_varint value buf = buf ++ encode_loop 10 value

-- The loop of `decode_varint`, with the number of bytes before.
unfoldable pub decode_loop : List ℕ → ℕ → ℕ → ℕ → Option (ℕ × ℕ)
decode_loop [] value shift i = none
decode_loop (byte ∷ bytes) value shift i =
    let next = value + byte % 128 * 2 ^ shift % 2 ^ 64 in
    let rest = decode_loop bytes next (shift + 7) (i + 1) in
    if ltb byte 128 then some (next, i + 1) else if leb 64 (shift + 7) then none else rest

unfoldable pub decode_varint : List ℕ → Option (ℕ × ℕ)
decode_varint buf = decode_loop buf 0 0 0

seven_more : (shift : ℕ) → 2 ^ (shift + 7) ≡ 128 * 2 ^ shift
seven_more shift = simp towards_suc (omega arith)

-- A number with more than one group left has not reached bit 64.
high : (shift : ℕ) → 64 ≤ shift + 7 → 2 ^ 64 ≤ 2 ^ (shift + 7)
high shift h = pow-le-pow_right {n = 2} (ground arith) h

groups :
    (value shift : ℕ) → value % 128 * 2 ^ shift + value / 128 * 2 ^ (shift + 7) ≡ value * 2 ^ shift
groups value shift = omega (
  arith,
  ap (λ (v : ℕ). v * 2 ^ shift) (div-add-mod value 128),
  ap (λ (q : ℕ). value / 128 * q) (seven_more shift),
)

room_left : (value shift : ℕ) → 1 ≤ value / 128 → value * 2 ^ shift < 2 ^ 64 → shift + 7 < 64
room_left value shift more fits = elim (Bool-cases (leb 64 (shift + 7))) [
  | inr below ↦ ground arith
  | inl reached ↦ absurd (
      omega (
        arith,
        fits,
        groups value shift,
        high shift (ground arith),
        mul-le-mul_right (2 ^ (shift + 7)) more,
      ))
]

pub encode_last :
    (fuel value : ℕ) → value / 128 ≡ 0 → encode_loop (suc fuel) value ≡ value % 128 ∷ []
unfolding encode_loop
encode_last fuel value none_left = ground arith

pub encode_more :
    (fuel value : ℕ)
    → 1 ≤ value / 128
    → encode_loop (suc fuel) value ≡ (value % 128 + 128) ∷ encode_loop fuel (value / 128)
unfolding encode_loop
encode_more fuel value more = ground arith

decode_last :
    (group before shift i : ℕ) (rest : List ℕ)
    → group < 128
    → group * 2 ^ shift < 2 ^ 64
    → decode_loop (group ∷ rest) before shift i ≡ some (before + group * 2 ^ shift, i + 1)
unfolding decode_loop
decode_last group before shift i rest small fits =
    let low : group % 128 ≡ group = omega (arith, small) in
    let below : group * 2 ^ shift % 2 ^ 64 ≡ group * 2 ^ shift = omega (arith, fits) in
    ground (arith, ap (λ (g : ℕ). g * 2 ^ shift % 2 ^ 64) low, below)

decode_more :
    (group before shift i : ℕ) (rest : List ℕ)
    → group < 128
    → group * 2 ^ shift < 2 ^ 64
    → shift + 7 < 64
    → decode_loop ((group + 128) ∷ rest) before shift i
      ≡ decode_loop rest (before + group * 2 ^ shift) (shift + 7) (i + 1)
unfolding decode_loop
decode_more group before shift i rest small fits room =
    let low : (group + 128) % 128 ≡ group = omega (arith, small) in
    let below : group * 2 ^ shift % 2 ^ 64 ≡ group * 2 ^ shift = omega (arith, fits) in
    ground (arith, ap (λ (g : ℕ). g * 2 ^ shift % 2 ^ 64) low, below)

some_pair : {a b c d : ℕ} → a ≡ c → b ≡ d → ◌≡◌ {A = Option (ℕ × ℕ)} (some (a, b)) (some (c, d))
some_pair p q = cc

last_group :
    (value shift before i : ℕ) (rest : List ℕ)
    → value / 128 ≡ 0
    → before + value * 2 ^ shift < 2 ^ 64
    → decode_loop (value % 128 ∷ rest) before shift i ≡ some (before + value * 2 ^ shift, i + 1)
last_group value shift before i rest gone fits =
    let low : value % 128 ≡ value = omega (arith, gone) in
    rw low (decode_last value before shift i rest (omega (arith, gone)) (omega (arith, fits)))

decode_loop-encode_loop :
    (fuel value shift before i : ℕ) (rest : List ℕ)
    → value < 128 ^ suc fuel
    → before + value * 2 ^ shift < 2 ^ 64
    → decode_loop (encode_loop (suc fuel) value ++ rest) before shift i
      ≡ some (before + value * 2 ^ shift, i + length (encode_loop (suc fuel) value))
decode_loop-encode_loop zero value shift before i rest small fits =
    let gone : value / 128 ≡ 0 = ground (arith, small) in
    rw (encode_last zero value gone) (last_group value shift before i rest gone fits)
decode_loop-encode_loop (suc fuel) value shift before i rest small fits =
    elim (Bool-cases (value / 128 == 0)) [
      | inl gone ↦
          let gone' : value / 128 ≡ 0 = ground arith in
          rw (encode_last (suc fuel) value gone') (last_group value shift before i rest gone' fits)
      | inr left ↦
          let more : 1 ≤ value / 128 = ground arith in
          let split = groups value shift in
          let rec =
            decode_loop-encode_loop fuel (value / 128) (shift + 7)
              (before + value % 128 * 2 ^ shift) (i + 1) rest (omega (arith, small))
              (omega (arith, fits, split)) in
          rw (encode_more (suc fuel) value more) (
            decode_more (value % 128) before shift i _ (omega arith) (omega (arith, fits, split))
              (room_left value shift more (omega (arith, fits)))
            ∙ rec
            ∙ some_pair (omega (arith, split)) (omega arith))
    ]

-- What `encode_varint` appends for a `u64` is read back by `decode_varint`, whatever follows, with the
-- number of bytes that it took.
pub decode_varint-encode_varint :
    (value : ℕ) (rest : List ℕ)
    → value < 2 ^ 64
    → decode_varint (encode_varint value [] ++ rest) ≡ some (value, length (encode_varint value []))
unfolding decode_varint encode_varint
decode_varint-encode_varint value rest fits =
    decode_loop-encode_loop 9 value 0 0 0 rest (omega (arith, fits)) (omega (arith, fits))
    ∙ some_pair (omega arith) (omega arith)
