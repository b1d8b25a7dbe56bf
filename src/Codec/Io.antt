-- ===== src/Codec/Io.antt =====
-- crates/around-engine/src/pipeline.rs: the callbacks through which a codec reads its source.
-- The source is behind `Read` and `Seek` of the standard library; `cursor` is such a source, the
-- library's `Cursor` over a vector.
use around.Base.{
  ℕ, ◌+◌, ◌-◌, ◌^◌, suc, ltb, ◌==◌, if◌then◌else◌, Option, none, some, List, length, take, drop,
}
use around.Base.Int.{ℤ, pos, negsuc}

-- `std::io::SeekFrom`
pub data SeekFrom : Type 0 where
  start : ℕ → SeekFrom
  current end : ℤ → SeekFrom

-- `Read + Seek`: `read len` hands over at most `len` bytes, and `none` is an `io::Error`.
pub record ReadSeek : Type 1 where
  pub Source : Type 0
  pub read : ℕ → Source → Option (List ℕ) × Source
  pub seek : SeekFrom → Source → Option ℕ × Source

-- What a codec is given: `read len` answers a negative number, or how many bytes it wrote, and the
-- bytes; `seek pos whence` answers a negative number or the new position.
pub record Reader : Type 1 where
  pub Context : Type 0
  pub read : ℕ → Context → Option (List ℕ) × Context
  pub seek : ℤ → ℕ → Context → Option ℕ × Context

-- `i64::try_from(n).unwrap_or(-1)`, where a caller only asks whether the answer is negative.
unfoldable pub non_negative : Option ℕ → Option ℕ
non_negative none = none
non_negative (some n) = if ltb n (2 ^ 63) then some n else none

unfoldable pub answered : {S : Type 0} → Option ℕ × S → Option ℕ × S
answered (answer, source) = (non_negative answer, source)

unfoldable pub read_size : {S : Type 0} → Option (List ℕ) × S → Option (List ℕ) × S
read_size (none, source) = (none, source)
read_size (some bytes, source) = (if ltb (length bytes) (2 ^ 63) then some bytes else none, source)

module _ (r : ReadSeek) where
  unfoldable pub read_cb : ℕ → r.Source → Option (List ℕ) × r.Source
  unfolding read_size
  read_cb len source = read_size (r.read len source)

  -- A negative offset from the start is refused before the reader sees it.
  unfoldable pub seek_start : ℤ → r.Source → Option ℕ × r.Source
  seek_start (pos p) source = answered (r.seek (start p) source)
  seek_start (negsuc p) source = (none, source)

  unfoldable pub seek_cb : ℤ → ℕ → r.Source → Option ℕ × r.Source
  unfolding seek_start answered non_negative
  seek_cb offset whence source =
      if whence == 0
      then seek_start offset source
      else if whence == 1
      then answered (r.seek (current offset) source)
      else if whence == 2
      then answered (r.seek (end offset) source)
      else (none, source)

  -- The two callbacks over a `ReaderBridge`.
  abbrev pub bridge : Reader
  bridge = record { Context = r.Source; read = read_cb; seek = seek_cb }

-- `std::io::Cursor<Vec<u8>>`
pub record Cursor : Type 0 where
  pub bytes : List ℕ
  pub at : ℕ

unfoldable pub cursor_read : ℕ → Cursor → Option (List ℕ) × Cursor
cursor_read len c =
    let got = take len (drop c.at c.bytes) in (some got, record c { at = c.at + length got })

-- A position before the first byte, or past 64 bits, is an error and moves nothing.
unfoldable pub move_to : ℤ → ℕ → Cursor → Option ℕ × Cursor
move_to (pos n) base c =
    if ltb (base + n) (2 ^ 64) then (some (base + n), record c { at = base + n }) else (none, c)
move_to (negsuc n) base c =
    if ltb n base then (some (base - suc n), record c { at = base - suc n }) else (none, c)

unfoldable pub cursor_seek : SeekFrom → Cursor → Option ℕ × Cursor
unfolding move_to
cursor_seek (start p) c = (some p, record c { at = p })
cursor_seek (current d) c = move_to d c.at c
cursor_seek (end d) c = move_to d (length c.bytes) c

abbrev pub cursor : ReadSeek
cursor = record { Source = Cursor; read = cursor_read; seek = cursor_seek }
