-- ===== src/Codec/Wav/Written.antt =====
-- crates/around-codec-wav/src/lib.rs: the header that is read back from a written WAV file.
-- A file here is chunks in RIFF's form: one `fmt ` chunk, one `data` chunk, and chunks of other kinds
-- before each of them.
use native.Mathlib.Nat.{zero-add}
use around.Base.{
  ℕ, zero, suc, ◌+◌, ◌/◌, ◌%◌, ◌==◌, if◌then◌else◌, ◌≤◌, ◌<◌, ◌^◌, false, List, [], ◌∷◌, ◌++◌,
  length, length-append, length-drop, ◌≡◌, refl, ap, subst, ◌∙◌, arith,
}
use around.Base.Text.{Text, text_eq}
use around.Codec.Bytes.{le_bytes, u16_at, u32_at}
use around.Codec.Io.{bridge, cursor, Cursor}
use around.Codec.Wav.Parser.{read_chunk_len, skip_chunk}
use around.Codec.Wav.Header.{Chunks, chunk_body, one_chunk, after_id, read_chunks, fmt_id, data_id}
use around.Codec.Wav.Files.{
  Before, after, after-after, after-Before, read-Before, read_bytes-Before, skip-Before,
  filled_self,
}

-- A chunk and what follows it: its id, its length and its bytes.
abbrev pub chunk : Text → List ℕ → List ℕ → List ℕ
chunk id body rest = id ++ (le_bytes 4 (length body) ++ (body ++ rest))

-- RIFF's padding: a chunk of odd length is followed by one more byte.
abbrev pub pad : ℕ → List ℕ → List ℕ
pad len rest = if len % 2 == 0 then rest else 0 ∷ rest

pub pad_even : (len : ℕ) (rest : List ℕ) → len % 2 ≡ 0 → pad len rest ≡ rest
pad_even len rest even = rw even refl

-- A chunk of another kind.
pub record Other : Type 0 where
  pub id : Text
  pub body : List ℕ

-- It is none of the two that are read, and needs no padding.
pub record IsOther (o : Other) : Type 0 where
  pub id_length : length o.id ≡ 4
  pub not_fmt : text_eq o.id fmt_id ≡ false
  pub not_data : text_eq o.id data_id ≡ false
  pub body_fits : length o.body < 2 ^ 32
  pub even : length o.body % 2 ≡ 0

pub u32_at-le_bytes : (v : ℕ) → v < 2 ^ 32 → u32_at 0 (le_bytes 4 v) ≡ v
unfolding u32_at u16_at le_bytes
u32_at-le_bytes v h = omega (arith, h)

pub length-le_bytes : (n v : ℕ) → length (le_bytes n v) ≡ n
unfolding le_bytes
length-le_bytes zero v = refl
length-le_bytes (suc n) v = ap suc (length-le_bytes n (v / 256))

module _ (fuel : ℕ) (h : Chunks) (c : Cursor) where
  -- A round of the loop at a chunk whose id and length stand before the cursor.
  pub round-Before :
      (id : Text) (len : ℕ) (rest : List ℕ)
      → length id ≡ 4
      → len < 2 ^ 32
      → Before c (id ++ (le_bytes 4 len ++ rest))
      → read_chunks (bridge cursor) (suc fuel) h c
        ≡ chunk_body
            (bridge cursor)
            (read_chunks (bridge cursor) fuel)
            id
            len
            h
            (after 4 (after 4 c))
  unfolding read_chunks after_id one_chunk
  round-Before id len rest whole fits h_id =
      let lens = length-le_bytes 4 len in
      let h_len = after-Before id (le_bytes 4 len ++ rest) 4 c whole h_id in
      rw (read-Before id (le_bytes 4 len ++ rest) 4 c whole (omega arith) h_id) (
        rw (whole, filled_self 4 id whole)
          (rw
            (read_bytes-Before (le_bytes 4 len) rest 4 read_chunk_len (after 4 c) lens (omega arith)
              h_len)
            (rw (u32_at-le_bytes len fits) refl)))

-- A chunk that stands before a cursor lies in its file.
pub chunk-inside :
    (id : Text) (len : ℕ) (body rest : List ℕ) (c : Cursor)
    → length id ≡ 4
    → Before c (id ++ (le_bytes 4 len ++ (body ++ rest)))
    → c.at + (8 + length body) ≤ length c.bytes
chunk-inside id len body rest c whole h = omega (
  arith,
  length-drop c.at c.bytes,
  ap (λ (xs : List ℕ). length xs) h,
  length-append id (le_bytes 4 len ++ (body ++ rest)),
  length-append (le_bytes 4 len) (body ++ rest),
  length-append body rest,
  length-le_bytes 4 len,
)

pub chunk-Before :
    (id : Text) (len : ℕ) (rest : List ℕ) (c : Cursor)
    → length id ≡ 4
    → Before c (id ++ (le_bytes 4 len ++ rest))
    → Before (after (4 + 4) c) rest
chunk-Before id len rest c whole h =
    subst (λ d. Before d rest) (after-after 4 4 c)
      (after-Before (le_bytes 4 len) rest 4 (after 4 c) (length-le_bytes 4 len)
        (after-Before id (le_bytes 4 len ++ rest) 4 c whole h))

module _ (fuel : ℕ) (h : Chunks) (c : Cursor) (fits : length c.bytes < 2 ^ 63) where
  -- A chunk of another kind costs one round and changes none of the variables.
  skip_other :
      (o : Other) (rest : List ℕ)
      → IsOther o
      → Before c (chunk o.id o.body rest)
      → read_chunks (bridge cursor) (suc fuel) h c
        ≡ read_chunks (bridge cursor) fuel h (after (8 + length o.body) c)
  unfolding chunk_body
  skip_other o rest w there =
      let inside = chunk-inside o.id (length o.body) o.body rest c w.id_length there in
      rw (round-Before fuel h c o.id (length o.body) (o.body ++ rest) w.id_length w.body_fits there)
        (rw (w.not_fmt, w.not_data)
          (rw (after-after 4 4 c) (
            rw (skip-Before (length o.body) skip_chunk (after 8 c) (unfold after in (omega arith)))
              (rw (after-after 8 (length o.body) c) refl))))

-- Chunks of other kinds with their padding, and what follows them.
unfoldable pub others : List Other → List ℕ → List ℕ
others [] rest = rest
others (o ∷ os) rest = chunk o.id o.body (pad (length o.body) (others os rest))

abbrev pub AllOther : List Other → Type 0
AllOther [] = Unit
AllOther (o ∷ os) = IsOther o × AllOther os

pub record SkippedTo (fuel : ℕ) (h : Chunks) (c : Cursor) (os : List Other) (rest : List ℕ)
    : Type 0 where
  pub at : Cursor
  pub same_file : at.bytes ≡ c.bytes
  pub before : Before at rest
  pub skipped :
      read_chunks (bridge cursor) (length os + fuel) h c ≡ read_chunks (bridge cursor) fuel h at

pub skip_others :
    (fuel : ℕ) (h : Chunks) (c : Cursor) (os : List Other) (rest : List ℕ)
    → length c.bytes < 2 ^ 63
    → AllOther os
    → Before c (others os rest)
    → SkippedTo fuel h c os rest
unfolding others
skip_others fuel h c [] rest fits w there = record {
  at = c;
  same_file = refl;
  before = there;
  skipped = rw zero-add refl;
}
skip_others fuel h c (o ∷ os) rest fits w there =
    let unpadded : Before c (chunk o.id o.body (others os rest)) =
      subst (λ more. Before c (chunk o.id o.body more))
        (pad_even (length o.body) (others os rest) w.0.even) there in
    let d = after (8 + length o.body) c in
    let next = skip_others fuel h d os rest (unfold after in fits) w.1 (
      subst (λ e. Before e (others os rest)) (after-after 8 (length o.body) c)
        (after-Before o.body (others os rest) (length o.body) (after 8 c) refl (
          chunk-Before o.id (length o.body) (o.body ++ others os rest) c w.0.id_length
            unpadded))) in
    let e : length (o ∷ os) + fuel ≡ suc (length os + fuel) = omega arith in
    record {
      at = next.at;
      same_file = next.same_file ∙ unfold after in refl;
      before = next.before;
      skipped =
          rw e
            (skip_other (length os + fuel) h c fits o (others os rest) w.0 unpadded ∙ next.skipped);
    }
