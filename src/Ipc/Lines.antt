-- ===== src/Ipc/Lines.antt =====
-- crates/around-engine/src/ipc/codec.rs: the lines of `JsonLineCodec`.
-- A reader is the list of the bytes that will come. What serde makes of a line is a parameter.
use around.Base.{
  backwards, ℕ, zero, suc, ◌*◌, Bool, true, false, ◌||◌, ◌&&◌, ltb, leb, ◌==◌, if◌then◌else◌,
  Option, none, some, List, [], ◌∷◌, ◌++◌, length, drop, Result, ok, err, ◌>>=◌,
}
use around.Base.Text.{Text}
use around.Ipc.Types.{IpcCommand}

pub data LineError : Type 0 where
  closed not_utf8 line_too_long too_many_empty_lines invalid_json : LineError

-- `str::from_utf8` accepts: `more` bytes of a character are to come, the next from `low` to `high`.
unfoldable pub is_utf8_from : ℕ → ℕ → ℕ → List ℕ → Bool
is_utf8_from zero low high [] = true
is_utf8_from (suc more) low high [] = false
is_utf8_from (suc more) low high (b ∷ bs) = leb low b && leb b high && is_utf8_from more 128 191 bs
is_utf8_from zero low high (b ∷ bs) =
    if ltb b 128
    then is_utf8_from 0 128 191 bs
    else if leb 194 b && leb b 223
    then is_utf8_from 1 128 191 bs
    else if b == 224
    then is_utf8_from 2 160 191 bs
    else if b == 237
    then is_utf8_from 2 128 159 bs
    else if leb 225 b && leb b 239
    then is_utf8_from 2 128 191 bs
    else if b == 240
    then is_utf8_from 3 144 191 bs
    else if leb 241 b && leb b 243
    then is_utf8_from 3 128 191 bs
    else b == 244 && is_utf8_from 3 128 143 bs

-- `char::is_whitespace` in UTF-8: characters of one, two and three bytes.
abbrev pub is_white_1 : ℕ → Bool
is_white_1 a = leb 9 a && leb a 13 || a == 32

abbrev pub is_white_2 : ℕ → ℕ → Bool
is_white_2 a b = a == 194 && (b == 133 || b == 160)

abbrev pub is_white_3 : ℕ → ℕ → ℕ → Bool
is_white_3 a b c =
    a == 225 && b == 154 && c == 128
    || a == 226 && b == 128 && (leb 128 c && leb c 138 || c == 168 || c == 169 || c == 175)
    || a == 226 && b == 129 && c == 159
    || a == 227 && b == 128 && c == 128

-- The bytes of the white character that a text starts with, and that a reversed text does.
abbrev pub white_start : Text → ℕ
white_start [] = 0
white_start (a ∷ []) = if is_white_1 a then 1 else 0
white_start (a ∷ b ∷ []) = if is_white_1 a then 1 else if is_white_2 a b then 2 else 0
white_start (a ∷ b ∷ c ∷ rest) =
    if is_white_1 a then 1 else if is_white_2 a b then 2 else if is_white_3 a b c then 3 else 0

abbrev pub white_end : Text → ℕ
white_end [] = 0
white_end (a ∷ []) = if is_white_1 a then 1 else 0
white_end (b ∷ a ∷ []) = if is_white_1 b then 1 else if is_white_2 a b then 2 else 0
white_end (c ∷ b ∷ a ∷ rest) =
    if is_white_1 c then 1 else if is_white_2 b c then 2 else if is_white_3 a b c then 3 else 0

unfoldable pub trimmed : (Text → ℕ) → ℕ → Text → Text
trimmed white zero s = s
trimmed white (suc fuel) s =
    let rest = trimmed white fuel (drop (white s) s) in if white s == 0 then s else rest

-- `str::trim`: a text has no more white characters than bytes.
unfoldable pub trim : Text → Text
trim s =
    let start = trimmed white_start (length s) s in
    backwards (trimmed white_end (length s) (backwards start [])) []

-- The bytes up to a newline, with it, and those after it.
unfoldable pub split_line : List ℕ → List ℕ × List ℕ
split_line [] = ([], [])
split_line (b ∷ reader) =
    let later = split_line reader in if b == 10 then (b ∷ [], reader) else (b ∷ later.0, later.1)

-- `read_line`
unfoldable pub read_line : List ℕ → Result LineError (Text × List ℕ)
read_line reader =
    let line = split_line reader in if is_utf8_from 0 128 191 line.0 then ok line else err not_utf8

-- 64 KiB.
abbrev pub max_line_len : ℕ
max_line_len = 64 * 1024

abbrev pub parsed : Option IpcCommand → List ℕ → Result LineError (IpcCommand × List ℕ)
parsed none reader = err invalid_json
parsed (some c) reader = ok (c, reader)

module _ (from_str : Text → Option IpcCommand) where
  -- A line that was read. A blank one is passed over, unless `later` is an error.
  unfoldable pub take_line :
      Result LineError (IpcCommand × List ℕ)
      → Text × List ℕ
      → Result LineError (IpcCommand × List ℕ)
  take_line later (line, reader) =
      if length line == 0
      then err closed
      else if ltb max_line_len (length line)
      then err line_too_long
      else if length (trim line) == 0
      then later
      else parsed (from_str (trim line)) reader

  -- The loop, with how many more blank lines may be skipped.
  unfoldable pub skip_lines : ℕ → List ℕ → Result LineError (IpcCommand × List ℕ)
  skip_lines zero reader = read_line reader >>= take_line (err too_many_empty_lines)
  skip_lines (suc more) reader = read_line reader >>= λ r. take_line (skip_lines more r.1) r

  -- `JsonLineCodec::read_command`
  unfoldable pub read_json : List ℕ → Result LineError (IpcCommand × List ℕ)
  read_json reader = skip_lines 16 reader

-- The bytes that `write_response` writes for a serialised answer.
unfoldable pub json_line : Text → List ℕ
json_line json = json ++ 10 ∷ []
