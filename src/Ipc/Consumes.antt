-- ===== src/Ipc/Consumes.antt =====
-- crates/around-engine/src/ipc: what reading a command leaves of a reader.
use around.Base.{
  subst, sym, ap, ℕ, zero, suc, ◌+◌, ◌≤◌, ◌<◌, ltb, leb, ◌==◌, true, false, if◌then◌else◌, ◌≡◌,
  arith, Option, some, none, List, [], ◌∷◌, length, drop, length-drop, inl, inr, Bool-cases, Result,
  ok, err, guard, ok_or, ◌>>=◌, >>=-eq-ok,
}
use around.Base.Text.{Text}
use around.Ipc.Types.{IpcCommand}
use around.Ipc.Varint.{decode_varint}
use around.Ipc.Framing.{
  empty_command, message_too_large, max_message, invalid_varint, ReadError, read_varint, read_exact,
  read_command,
}
use around.Ipc.Lines.{
  LineError, split_line, read_line, is_utf8_from, take_line, skip_lines, read_json, parsed, trim,
  max_line_len, too_many_empty_lines,
}
use around.Ipc.Connection.{Formats, IpcWire, proto, json, read_wire, to_option}

-- What is left when it reads something is shorter than `n`.
abbrev Leaves {ℓ} : {E A : Type ℓ} → ℕ → Result E (A × List ℕ) → Type ℓ
Leaves {A = A} n r = (a : A) (rest : List ℕ) → r ≡ ok (a, rest) → length rest < n

module _ (byte : ℕ) (reader bytes rest : List ℕ) (r : Result ReadError (List ℕ × List ℕ)) where
  varint_last_lt :
      ltb byte 128 ≡ true
      → ◌≡◌ {A = Result ReadError (List ℕ × List ℕ)}
          (if ltb byte 128 then ok (byte ∷ [], reader) else (r >>= λ r. ok (byte ∷ r.0, r.1)))
          (ok (bytes, rest))
      → length rest < suc (length reader)
  varint_last_lt last = rw last (λ h. let same : reader ≡ rest = cc in rw (sym same) (omega arith))

  varint_later_lt :
      ltb byte 128 ≡ false
      → Leaves (length reader) r
      → ◌≡◌ {A = Result ReadError (List ℕ × List ℕ)}
          (if ltb byte 128 then ok (byte ∷ [], reader) else (r >>= λ r. ok (byte ∷ r.0, r.1)))
          (ok (bytes, rest))
      → length rest < suc (length reader)
  varint_later_lt later lt = rw later (λ h.
      let first = >>=-eq-ok r _ h in
      let same : first.0.1 ≡ rest = cc (first.2) in
      omega (arith, lt first.0.0 first.0.1 first.1, ap (λ (x : List ℕ). length x) same))

read_varint_lt : (more : ℕ) (reader : List ℕ) → Leaves (length reader) (read_varint more reader)
unfolding read_varint
read_varint_lt zero reader bytes rest h = cc
read_varint_lt (suc more) [] bytes rest h = cc
read_varint_lt (suc more) (byte ∷ reader) bytes rest h = elim (Bool-cases (ltb byte 128)) [
  | inl last ↦ varint_last_lt byte reader bytes rest (read_varint more reader) last h
  | inr later ↦
      varint_later_lt byte reader bytes rest (read_varint more reader) later
        (read_varint_lt more reader) h
]

read_exact_le :
    (n : ℕ) (reader bytes rest : List ℕ)
    → read_exact n reader ≡ ok (bytes, rest)
    → length rest ≤ length reader
unfolding read_exact
read_exact_le n reader bytes rest = elim (Bool-cases (ltb (length reader) n)) [
  | inl short ↦ rw short (λ h. cc)
  | inr enough ↦ rw enough (λ h.
      let same : drop n reader ≡ rest = cc in
      omega (arith, length-drop n reader, ap (λ (x : List ℕ). length x) same))
]

read_command_lt :
    (decode : List ℕ → Result ReadError (Option IpcCommand)) (reader : List ℕ)
    → Leaves (length reader) (read_command decode reader)
unfolding read_command
read_command_lt decode reader c rest h =
    let prefix = >>=-eq-ok (read_varint 10 reader) _ h in
    let msg_len = >>=-eq-ok (ok_or (decode_varint prefix.0.0) invalid_varint) _ prefix.2 in
    let small = >>=-eq-ok (guard (leb msg_len.0.0 max_message) message_too_large) _ msg_len.2 in
    let message = >>=-eq-ok (read_exact msg_len.0.0 prefix.0.1) _ small.2 in
    let command = >>=-eq-ok (decode message.0.0) _ message.2 in
    let taken = >>=-eq-ok (ok_or command.0 empty_command) _ command.2 in
    let same : message.0.1 ≡ rest = cc (taken.2) in
    omega (
      arith,
      read_varint_lt 10 reader prefix.0.0 prefix.0.1 prefix.1,
      read_exact_le msg_len.0.0 prefix.0.1 message.0.0 message.0.1 message.1,
      ap (λ (x : List ℕ). length x) same,
    )

pub split_line-length :
    (reader : List ℕ) → length (split_line reader).0 + length (split_line reader).1 ≡ length reader
unfolding split_line
split_line-length [] = omega arith
split_line-length (b ∷ reader) = ground (arith, split_line-length reader)

module _ (from_str : Text → Option IpcCommand) where
  take_line_lt :
      (n : ℕ) (later : Result LineError (IpcCommand × List ℕ)) (line : Text) (reader : List ℕ)
      → (0 < length line → length reader < n)
      → (0 < length line → Leaves n later)
      → Leaves n (take_line from_str later (line, reader))
  unfolding take_line
  take_line_lt n later line reader shorter go c rest = elim (Bool-cases (length line == 0)) [
    | inl none_left ↦ rw none_left (λ h. cc)
    | inr some_left ↦
        let there : 0 < length line = ground (arith, some_left) in
        rw some_left (elim (Bool-cases (ltb max_line_len (length line))) [
          | inl long ↦ rw long (λ h. cc)
          | inr fits ↦ rw fits (elim (Bool-cases (length (trim line) == 0)) [
            | inl blank ↦ rw blank (go there c rest)
            | inr text ↦ rw text (parsed_lt (from_str (trim line)) there)
          ])
        ])
  ]
    where
      parsed_lt :
          (o : Option IpcCommand)
          → 0 < length line
          → parsed o reader ≡ ok (c, rest)
          → length rest < n
      parsed_lt none there h = cc
      parsed_lt (some d) there h =
          let same : reader ≡ rest = cc in subst (λ r. length r < n) same (shorter there)

  line_lt :
      (n : ℕ) (later : List ℕ → Result LineError (IpcCommand × List ℕ)) (reader : List ℕ)
      → length reader ≤ n
      → ((rest : List ℕ) → length rest < n → Leaves n (later rest))
      → Leaves n (read_line reader >>= λ r. take_line from_str (later r.1) r)
  unfolding read_line
  line_lt n later reader le go c rest =
      let line = split_line reader in
      let sum = split_line-length reader in
      elim (Bool-cases (is_utf8_from 0 128 191 line.0)) [
        | inl valid ↦ rw valid (
            take_line_lt n (later line.1) line.0 line.1 (λ there. omega (arith, sum, there, le))
              (λ there. go line.1 (omega (arith, sum, there, le))) c rest)
        | inr invalid ↦ rw invalid (λ h. cc)
      ]

  skip_lines_lt :
      (n more : ℕ) (reader : List ℕ)
      → length reader ≤ n
      → Leaves n (skip_lines from_str more reader)
  unfolding skip_lines
  skip_lines_lt n zero reader le =
      line_lt n (λ r. err too_many_empty_lines) reader le (λ rest lt c r h. cc)
  skip_lines_lt n (suc more) reader le =
      line_lt n (skip_lines from_str more) reader le
        (λ rest lt. skip_lines_lt n more rest (omega (arith, lt)))

to_option-eq-some : {E A : Type 0} (r : Result E A) (a : A) → to_option r ≡ some a → r ≡ ok a
to_option-eq-some (ok b) a h = cc
to_option-eq-some (err e) a h = cc

-- A command that is read takes at least one byte.
pub read_wire_lt :
    (f : Formats) (wire : IpcWire) (reader : List ℕ) (c : IpcCommand) (rest : List ℕ)
    → read_wire f wire reader ≡ some (c, rest)
    → length rest < length reader
unfolding read_wire read_json
read_wire_lt f proto reader c rest h =
    read_command_lt f.decode reader c rest (to_option-eq-some _ _ h)
read_wire_lt f json reader c rest h =
    skip_lines_lt f.from_str (length reader) 16 reader (omega arith) c rest
      (to_option-eq-some _ _ h)
