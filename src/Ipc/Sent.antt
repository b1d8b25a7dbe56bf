-- ===== src/Ipc/Sent.antt =====
-- crates/around-engine/src/ipc: what a client sends, in each wire format, read as its commands.
use around.Base.{
  ◌∙◌, ℕ, zero, suc, ◌+◌, ◌≤◌, ◌<◌, ltb, ◌==◌, true, false, ◌≡◌, ◌≢◌, refl, arith, Option, some,
  none, List, [], ◌∷◌, ◌++◌, length, inl, inr, Bool-cases, Result, ok, All, length-append,
}
use around.Base.Text.{Text}
use around.Ipc.Types.{IpcCommand}
use around.Ipc.Framing.{read_varint, framed, max_message, read_command, read_command-framed}
use around.Ipc.Lines.{
  LineError, split_line, read_line, is_utf8_from, take_line, skip_lines, read_json, trim,
  max_line_len, json_line,
}
use around.Ipc.Connection.{Formats, IpcWire, proto, json, read_wire}

-- A line without its newline: no newline stands in it, it is UTF-8, and at most 64 KiB with it.
pub record IsLine (line : Text) : Type 0 where
  pub one_line : All (λ b. b ≢ 10) line
  pub valid : is_utf8_from 0 128 191 (json_line line) ≡ true
  pub fits : length line < max_line_len

==-ne : (m n : ℕ) → m ≢ n → (m == n) ≡ false
==-ne m n ne = elim (Bool-cases (m == n)) [
  | inl same ↦ absurd (ne (ground (arith, same)))
  | inr other ↦ other
]

json_line-length : (line : Text) → length (json_line line) ≡ length line + 1
unfolding json_line
json_line-length line = length-append line (10 ∷ [])

split_line-json_line :
    (line reader : List ℕ)
    → All (λ b. b ≢ 10) line
    → split_line (line ++ 10 ∷ reader) ≡ (json_line line, reader)
unfolding split_line json_line
split_line-json_line [] reader h = refl
split_line-json_line (b ∷ line) reader h =
    let other : (b == 10) ≡ false = ==-ne b 10 h.0 in
    rw other (rw (split_line-json_line line reader h.1) refl)

read_line-IsLine :
    (line reader : List ℕ)
    → IsLine line
    → read_line (line ++ 10 ∷ reader) ≡ ok (json_line line, reader)
unfolding read_line
read_line-IsLine line reader h = rw (split_line-json_line line reader h.one_line) (rw h.valid refl)

-- Lines that stand before `reader`.
unfoldable pub lines : List Text → List ℕ → List ℕ
lines [] reader = reader
lines (line ∷ more) reader = line ++ 10 ∷ lines more reader

-- A blank line has only white space.
pub record IsBlank (line : Text) : Type 0 where
  pub is_line : IsLine line
  pub white : length (trim (json_line line)) ≡ 0

module _ (from_str : Text → Option IpcCommand) where
  -- A line that serde takes for a command.
  pub record IsCommand (line : Text) (c : IpcCommand) : Type 0 where
    pub is_line : IsLine line
    pub not_white : 0 < length (trim (json_line line))
    pub means : from_str (trim (json_line line)) ≡ some c

  take_command :
      (line : Text) (c : IpcCommand) (later : Result LineError (IpcCommand × List ℕ))
      (reader : List ℕ)
      → IsCommand line c
      → take_line from_str later (json_line line, reader) ≡ ok (c, reader)
  unfolding take_line
  take_command line c later reader h =
      let len = json_line-length line in
      let there : (length (json_line line) == 0) ≡ false = ground (arith, len) in
      let short : ltb max_line_len (length (json_line line)) ≡ false =
        ground (arith, len, h.is_line.fits) in
      let text : (length (trim (json_line line)) == 0) ≡ false = ground (arith, h.not_white) in
      rw there (rw short (rw text (rw h.means refl)))

  take_blank :
      (line : Text) (later : Result LineError (IpcCommand × List ℕ)) (reader : List ℕ)
      → IsBlank line
      → take_line from_str later (json_line line, reader) ≡ later
  unfolding take_line
  take_blank line later reader h =
      let len = json_line-length line in
      let there : (length (json_line line) == 0) ≡ false = ground (arith, len) in
      let short : ltb max_line_len (length (json_line line)) ≡ false =
        ground (arith, len, h.is_line.fits) in
      rw there (rw short (rw h.white refl))

  skip_lines-lines :
      (more : ℕ) (blanks : List Text) (line : Text) (c : IpcCommand) (reader : List ℕ)
      → length blanks ≤ more
      → All IsBlank blanks
      → IsCommand line c
      → skip_lines from_str more (lines blanks (line ++ 10 ∷ reader)) ≡ ok (c, reader)
  unfolding skip_lines lines
  skip_lines-lines zero [] line c reader few h command =
      rw (read_line-IsLine line reader command.is_line) (take_command line c _ reader command)
  skip_lines-lines (suc more) [] line c reader few h command =
      rw (read_line-IsLine line reader command.is_line) (take_command line c _ reader command)
  skip_lines-lines zero (b ∷ blanks) line c reader few h command = absurd (omega (arith, few))
  skip_lines-lines (suc more) (b ∷ blanks) line c reader few h command =
      let rest = lines blanks (line ++ 10 ∷ reader) in
      rw (read_line-IsLine b rest h.0.is_line) (
        take_blank b (skip_lines from_str more rest) rest h.0
        ∙ skip_lines-lines more blanks line c reader (omega (arith, few)) h.1 command)

-- The bytes of the commands, each in a frame that decodes to it, or on a line that serde takes for it
-- after at most 16 blank ones.
pub data Sent (f : Formats) : IpcWire → List ℕ → List IpcCommand → Type 0 where
  nothing : {wire : IpcWire} → Sent f wire [] []
  frame :
      {bytes : List ℕ} {cs : List IpcCommand} (message : List ℕ) (c : IpcCommand)
      → length message ≤ max_message
      → f.decode message ≡ ok (some c)
      → Sent f proto bytes cs
      → Sent f proto (framed message ++ bytes) (c ∷ cs)
  line :
      {bytes : List ℕ} {cs : List IpcCommand} (blanks : List Text) (text : Text) (c : IpcCommand)
      → length blanks ≤ 16
      → All IsBlank blanks
      → IsCommand f.from_str text c
      → Sent f json bytes cs
      → Sent f json (lines blanks (text ++ 10 ∷ bytes)) (c ∷ cs)

-- Nothing, and then a command, are read as such.
pub read_wire-nil : (f : Formats) (wire : IpcWire) → read_wire f wire [] ≡ none
unfolding read_wire read_command read_varint read_json skip_lines read_line split_line is_utf8_from
    take_line
read_wire-nil f proto = refl
read_wire-nil f json = refl

pub read_wire-frame :
    (f : Formats) (message bytes : List ℕ) (c : IpcCommand)
    → length message ≤ max_message
    → f.decode message ≡ ok (some c)
    → read_wire f proto (framed message ++ bytes) ≡ some (c, bytes)
unfolding read_wire
read_wire-frame f message bytes c fits means =
    rw (read_command-framed f.decode message bytes c fits means) refl

pub read_wire-line :
    (f : Formats) (blanks : List Text) (text : Text) (bytes : List ℕ) (c : IpcCommand)
    → length blanks ≤ 16
    → All IsBlank blanks
    → IsCommand f.from_str text c
    → read_wire f json (lines blanks (text ++ 10 ∷ bytes)) ≡ some (c, bytes)
unfolding read_wire read_json
read_wire-line f blanks text bytes c few white command =
    rw (skip_lines-lines f.from_str 16 blanks text c bytes few white command) refl
