-- ===== src/Ipc/Detection.antt =====
-- crates/around-engine/src/ipc/connection.rs: the wire format that a connection's first bytes select.
use around.Base.{
  ◌≤◌, ℕ, suc, ◌+◌, ◌/◌, ◌%◌, ◌==◌, false, if◌then◌else◌, ◌≡◌, ◌≢◌, ◌↔◌, refl, arith, List, ◌∷◌,
  ◌++◌, length, take, inl, inr, Bool-cases,
}
use around.Ipc.Varint.{encode_varint, encode_loop}
use around.Ipc.Framing.{framed}
use around.Ipc.Connection.{
  IpcWire, proto, json, detect, detect_from_byte, first_byte, is_ascii_whitespace,
}

json-ne-proto : json ≢ proto
json-ne-proto h = cc

-- The first byte of a frame.
abbrev frame_head : ℕ → ℕ
frame_head len = if len / 128 == 0 then len % 128 else len % 128 + 128

detect-head :
    (b n : ℕ) (bytes : List ℕ) (codec : IpcWire)
    → is_ascii_whitespace b ≡ false
    → detect codec (take (suc n) (b ∷ bytes)) ≡ (if b == 123 then json else codec)
unfolding detect detect_from_byte first_byte
detect-head b n bytes codec black = elim (Bool-cases (b == 123)) [
  | inl brace ↦ rw black (rw brace refl)
  | inr other ↦ rw black (rw other refl)
]

-- A frame is its head and the rest.
framed-head :
    (message rest : List ℕ)
    → (more : List ℕ) × (framed message ++ rest ≡ frame_head (length message) ∷ more)
unfolding framed encode_varint encode_loop
framed-head message rest = elim (Bool-cases (length message / 128 == 0)) [
  | inl last ↦ rw last (_, refl)
  | inr more ↦ rw more (_, refl)
]

frame_head-black :
    (len : ℕ) → is_ascii_whitespace len ≡ false → is_ascii_whitespace (frame_head len) ≡ false
unfolding is_ascii_whitespace
frame_head-black len black = ground (arith, black)

frame_head-brace : (len : ℕ) → frame_head len ≡ 123 ↔ len ≡ 123
frame_head-brace len = elim (Bool-cases (len / 128 == 0)) [
  | inl last ↦ rw last (
      let small : len / 128 ≡ 0 = ground (arith, last) in
      ((λ h. omega (arith, h, small)), (λ h. omega (arith, h, small))))
  | inr more ↦ rw more (
      let large : 1 ≤ len / 128 = ground (arith, more) in
      ((λ h. absurd (omega (arith, h))), (λ h. absurd (omega (arith, h, large)))))
]

-- On a listener for Protobuf, a client whose first frame's length is not that of a white byte is taken
-- for a JSON client exactly where the frame's message has 123 bytes: their number is then the byte of
-- an opening brace.
pub detect-framed :
    (n : ℕ) (message rest : List ℕ)
    → is_ascii_whitespace (length message) ≡ false
    → detect proto (take (suc n) (framed message ++ rest)) ≡ json ↔ length message ≡ 123
detect-framed n message rest black =
    let split = framed-head message rest in
    let at =
      detect-head (frame_head (length message)) n split.0 proto
        (frame_head-black (length message) black) in
    let brace = frame_head-brace (length message) in
    rw (split.1) (
      rw at (elim (Bool-cases (frame_head (length message) == 123)) [
        | inl is ↦ rw is ((λ h. brace.0 (ground (arith, is))), (λ h. refl))
        | inr isnt ↦ rw isnt ((λ h. cc), (λ h. ground (arith, isnt, brace.1 h)))
      ]))
