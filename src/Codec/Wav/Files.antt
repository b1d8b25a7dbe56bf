-- ===== src/Codec/Wav/Files.antt =====
-- crates/around-codec-wav/src/lib.rs: headers read from a file in memory.
use around.Base.{
  ℕ, ◌+◌, ◌-◌, ◌≤◌, ◌<◌, ◌^◌, min, some, List, length, take, drop, length-take, length-drop, ok,
  ◌≡◌, refl, ap, sym, arith, ◌++◌, take_all, drop_all, drop-drop, length-append, lt→ltb, ◌∙◌,
}
use around.Base.Int.{pos}
use around.Codec.Io.{
  bridge, read_cb, seek_cb, cursor, Cursor, cursor_read, cursor_seek, read_size, answered,
  non_negative, move_to,
}
use around.Codec.Wav.Parser.{HeaderError, filled, read_bytes, skip}
use around.Codec.Wav.Terminates.{IsForward}

-- How many bytes of a cursor are left.
abbrev pub cursor_left : Cursor → ℕ
cursor_left c = length c.bytes - c.at

got_length : (n : ℕ) (c : Cursor) → length (take n (drop c.at c.bytes)) ≡ min n (cursor_left c)
got_length n c = omega (arith, length-take n (drop c.at c.bytes), length-drop c.at c.bytes)

-- What a read of `n` bytes moves.
cursor_read_at : (n : ℕ) (c : Cursor) → ((read_cb cursor n c).1).at ≡ c.at + min n (cursor_left c)
unfolding read_cb read_size cursor_read
cursor_read_at n c = omega (arith, got_length n c)

cursor_read_bytes : (n : ℕ) (c : Cursor) → ((read_cb cursor n c).1).bytes ≡ c.bytes
unfolding read_cb read_size cursor_read
cursor_read_bytes n c = refl

pub cursor_read_lt :
    (id : List ℕ) (c : Cursor)
    → (read_cb cursor 4 c).0 ≡ some id
    → length id ≡ 4
    → cursor_left (read_cb cursor 4 c).1 < cursor_left c
unfolding read_cb read_size cursor_read
cursor_read_lt id c h whole =
    let e : take 4 (drop c.at c.bytes) ≡ id = ground arith in
    omega (arith, ap (λ (xs : List ℕ). length xs) e, got_length 4 c)

pub cursor_seek_left :
    (n : ℕ) (c : Cursor) → cursor_left (seek_cb cursor (pos n) 1 c).1 ≤ cursor_left c
unfolding seek_cb answered cursor_seek move_to
cursor_seek_left n c = ground arith

pub cursor_read_left : (n : ℕ) (c : Cursor) → cursor_left (read_cb cursor n c).1 ≤ cursor_left c
cursor_read_left n c =
    omega (arith, cursor_read_at n c, ap (λ (xs : List ℕ). length xs) (cursor_read_bytes n c))

-- A cursor's measure: the bytes that are left.
abbrev pub cursor_forward : IsForward (bridge cursor)
cursor_forward = record {
  left = cursor_left;
  read_le = cursor_read_left;
  read_lt = cursor_read_lt;
  seek_le = cursor_seek_left;
}

-- What stands before a cursor.
abbrev pub Before : Cursor → List ℕ → Type 0
Before c rest = drop c.at c.bytes ≡ rest

-- A cursor `n` bytes further on.
unfoldable pub after : ℕ → Cursor → Cursor
after n c = record c { at = c.at + n }

pub after-after : (m n : ℕ) (c : Cursor) → after n (after m c) ≡ after (m + n) c
unfolding after
after-after m n c = ground arith

pub after-Before :
    (chunk rest : List ℕ) (n : ℕ) (c : Cursor)
    → length chunk ≡ n
    → Before c (chunk ++ rest)
    → Before (after n c) rest
unfolding after
after-Before chunk rest n c len h =
    sym (drop-drop c.at n c.bytes) ∙ rw h (rw (sym len) (drop_all chunk rest))

pub filled_self : (n : ℕ) (bytes : List ℕ) → length bytes ≡ n → filled n bytes ≡ bytes
unfolding filled
filled_self n bytes len = rw (sym len) (take_all bytes _)

-- A read of bytes that stand before the cursor.
pub read-Before :
    (chunk rest : List ℕ) (n : ℕ) (c : Cursor)
    → length chunk ≡ n
    → n < 2 ^ 63
    → Before c (chunk ++ rest)
    → read_cb cursor n c ≡ (some chunk, after n c)
unfolding read_cb read_size cursor_read after
read-Before chunk rest n c len small h =
    let got : take n (drop c.at c.bytes) ≡ chunk = rw (h, sym len) (take_all chunk rest) in
    rw got (rw len (rw (lt→ltb n (2 ^ 63) small) refl))

pub read_bytes-Before :
    (chunk rest : List ℕ) (n : ℕ) (e : HeaderError) (c : Cursor)
    → length chunk ≡ n
    → n < 2 ^ 63
    → Before c (chunk ++ rest)
    → read_bytes (bridge cursor) n e c ≡ (ok chunk, after n c)
unfolding read_bytes
read_bytes-Before chunk rest n e c len small h =
    rw (read-Before chunk rest n c len small h) (rw (filled_self n chunk len) refl)

-- The bytes that stand before a cursor lie in its file.
pub Before-inside :
    (chunk rest : List ℕ) (c : Cursor)
    → 0 < length chunk
    → Before c (chunk ++ rest)
    → c.at + length chunk ≤ length c.bytes
Before-inside chunk rest c some_bytes h =
    omega
      (arith, length-drop c.at c.bytes, ap (λ (xs : List ℕ). length xs) h, length-append chunk rest)

pub skip-Before :
    (n : ℕ) (e : HeaderError) (c : Cursor)
    → c.at + n < 2 ^ 63
    → skip (bridge cursor) n e c ≡ (ok tt, after n c)
unfolding skip seek_cb answered cursor_seek move_to non_negative after
skip-Before n e c small =
    rw (lt→ltb (c.at + n) (2 ^ 64) (omega arith)) (rw (lt→ltb (c.at + n) (2 ^ 63) small) refl)
