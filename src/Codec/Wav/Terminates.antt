-- ===== src/Codec/Wav/Terminates.antt =====
-- crates/around-codec-wav/src/lib.rs: `parse_header` ends, over a reader whose input runs out.
use around.Base.{
  ℕ, zero, suc, ◌-◌, ◌%◌, ◌≤◌, ◌<◌, ◌==◌, min, Bool, true, false, ltb, Option, none, some, List,
  length, Result, ok, err, ◌≡◌, ◌≢◌, refl, arith, inl, inr, Bool-cases,
}
use around.Base.Int.{pos}
use around.Base.Text.{Text, text_eq}
use around.Codec.Bytes.{u16_at, u32_at}
use around.Codec.Io.{Reader}
use around.Codec.Wav.Parser.{
  HeaderError, Parser, go_on, demand, filled, read_bytes, skip, buffered, moved, out_of_fuel,
  read_fmt, skip_fmt, read_chunk_len, skip_chunk, read_riff, read_size, read_wave, not_riff,
  not_wave, no_fmt, no_data,
}
use around.Codec.Wav.Header.{
  Chunks, no_chunks, riff_id, wave_id, skip_extra, fmt_chunk, chunk_body, one_chunk, after_id,
  read_chunks, read_magic, parse_header, fmt_id, data_id, is_depth, is_channels,
}

-- A reader with a measure of what is left: no call raises it, and a whole chunk id lowers it.
pub record IsForward (r : Reader) : Type 0 where
  pub left : r.Context → ℕ
  pub read_le : (n : ℕ) (c : r.Context) → left (r.read n c).1 ≤ left c
  pub read_lt :
      (id : List ℕ) (c : r.Context)
      → (r.read 4 c).0 ≡ some id
      → length id ≡ 4
      → left (r.read 4 c).1 < left c
  pub seek_le : (n : ℕ) (c : r.Context) → left (r.seek (pos n) 1 c).1 ≤ left c

module _ (r : Reader) (fw : IsForward r) where
  abbrev left : r.Context → ℕ
  left = fw.left

  -- A step from `c` whose loop, if it has one, has not run out of fuel.
  record Runs {A : Type 0} (c : r.Context) (answer : Result HeaderError A × r.Context)
      : Type 0 where
    forward : left answer.1 ≤ left c
    ends : answer.0 ≢ err out_of_fuel

  go_on-Runs :
      {A B : Type 0} (f : A → Parser r.Context B) (c : r.Context)
      (answer : Result HeaderError A × r.Context)
      → Runs c answer
      → ((a : A) (d : r.Context) → left d ≤ left c → Runs d (f a d))
      → Runs c (go_on f answer)
  go_on-Runs f c (ok a, d) h go =
      let later = go a d h.forward in
      record { forward = omega (arith, h.forward, later.forward); ends = later.ends }
  go_on-Runs f c (err e, d) h go = record { forward = h.forward; ends = λ q. h.ends (cc) }

  buffered-Runs :
      (n : ℕ) (e : HeaderError) (c : r.Context) (answer : Option (List ℕ) × r.Context)
      → e ≢ out_of_fuel
      → left answer.1 ≤ left c
      → Runs c (buffered n e answer)
  buffered-Runs n e c (none, d) ne le = record { forward = le; ends = λ q. ne (cc) }
  buffered-Runs n e c (some bytes, d) ne le = record { forward = le; ends = λ q. cc }

  moved-Runs :
      (e : HeaderError) (c : r.Context) (answer : Option ℕ × r.Context)
      → e ≢ out_of_fuel
      → left answer.1 ≤ left c
      → Runs c (moved e answer)
  moved-Runs e c (none, d) ne le = record { forward = le; ends = λ q. ne (cc) }
  moved-Runs e c (some at, d) ne le = record { forward = le; ends = λ q. cc }

  read_bytes-Runs :
      (n : ℕ) (e : HeaderError) (c : r.Context) → e ≢ out_of_fuel → Runs c (read_bytes r n e c)
  unfolding read_bytes
  read_bytes-Runs n e c ne = buffered-Runs n e c (r.read n c) ne (fw.read_le n c)

  skip-Runs : (n : ℕ) (e : HeaderError) (c : r.Context) → e ≢ out_of_fuel → Runs c (skip r n e c)
  unfolding skip
  skip-Runs n e c ne = moved-Runs e c (r.seek (pos n) 1 c) ne (fw.seek_le n c)

  return-Runs : {A : Type 0} (a : A) (c : r.Context) → Runs c (ok a, c)
  return-Runs a c = record { forward = omega arith; ends = λ q. cc }

  demand-Runs :
      (b : Bool) (e : HeaderError) (c : r.Context) → e ≢ out_of_fuel → Runs c (demand b e c)
  demand-Runs true e c ne = return-Runs tt c
  demand-Runs false e c ne = record { forward = omega arith; ends = λ q. ne (cc) }

  skip_extra-Runs : (n : ℕ) (c : r.Context) → Runs c (skip_extra r n c)
  unfolding skip_extra
  skip_extra-Runs n c = elim (Bool-cases (ltb 16 n)) [
    | inl longer ↦ rw longer (skip-Runs (n - 16) skip_fmt c (λ q. cc))
    | inr short ↦ rw short (return-Runs tt c)
  ]

  fmt_chunk-Runs : (n : ℕ) (h : Chunks) (c : r.Context) → Runs c (fmt_chunk r n h c)
  unfolding fmt_chunk
  fmt_chunk-Runs n h c =
      go_on-Runs _ c _ (read_bytes-Runs (min n 16) read_fmt c (λ q. cc)) (λ part c1 le1.
        let buf = filled 16 part in
        go_on-Runs _ c1 _ (demand-Runs (u16_at 0 buf == 1) _ c1 (λ q. cc)) (λ t2 c2 le2.
          go_on-Runs _ c2 _ (demand-Runs (is_depth (u16_at 14 buf % 256)) _ c2 (λ q. cc))
            (λ t3 c3 le3.
              go_on-Runs _ c3 _ (demand-Runs (is_channels (u16_at 2 buf % 256)) _ c3 (λ q. cc))
                (λ t4 c4 le4.
                  go_on-Runs _ c4 _ (skip_extra-Runs n c4) (λ t5 c5 le5. return-Runs _ c5)))))

  module _ (fuel : ℕ) (later : Chunks → Parser r.Context Chunks)
      (ready : (h : Chunks) (c : r.Context) → left c < fuel → Runs c (later h c)) where
    chunk_body-Runs :
        (id : Text) (n : ℕ) (h : Chunks) (c : r.Context)
        → left c < fuel
        → Runs c (chunk_body r later id n h c)
    unfolding chunk_body
    chunk_body-Runs id n h c small = elim (Bool-cases (text_eq id fmt_id)) [
      | inl is_fmt ↦
          rw is_fmt
            (go_on-Runs later c _ (fmt_chunk-Runs n h c) (λ h' d le. ready h' d (omega arith)))
      | inr other ↦ elim (Bool-cases (text_eq id data_id)) [
        | inl is_data ↦ rw (other, is_data) (return-Runs _ c)
        | inr unknown ↦
            rw (other, unknown)
              (go_on-Runs _ c _ (skip-Runs n skip_chunk c (λ q. cc))
                (λ t d le. ready h d (omega arith)))
      ]
    ]

    one_chunk-Runs :
        (id : Text) (h : Chunks) (c : r.Context) → left c < fuel → Runs c (one_chunk r later id h c)
    unfolding one_chunk
    one_chunk-Runs id h c small =
        go_on-Runs _ c _ (read_bytes-Runs 4 read_chunk_len c (λ q. cc))
          (λ len d le. chunk_body-Runs id (u32_at 0 len) h d (omega arith))

    after_id-Runs :
        (h : Chunks) (c : r.Context) (answer : Option (List ℕ) × r.Context)
        → ((id : List ℕ) → answer.0 ≡ some id → length id ≡ 4 → left answer.1 < fuel)
        → left answer.1 ≤ left c
        → Runs c (after_id r later h answer)
    unfolding after_id
    after_id-Runs h c (none, d) lower le = record { forward = le; ends = λ q. cc }
    after_id-Runs h c (some id, d) lower le = elim (Bool-cases (length id == 4)) [
      | inl whole ↦
          let rest = one_chunk-Runs (filled 4 id) h d (lower id refl (ground arith)) in
          rw whole (record { forward = omega (arith, rest.forward); ends = rest.ends })
      | inr cut ↦ rw cut (record { forward = le; ends = λ q. cc })
    ]

  read_chunks-Runs :
      (fuel : ℕ) (h : Chunks) (c : r.Context) → left c < fuel → Runs c (read_chunks r fuel h c)
  unfolding read_chunks
  read_chunks-Runs zero h c small = absurd (omega arith)
  read_chunks-Runs (suc fuel) h c small =
      after_id-Runs fuel (read_chunks r fuel) (λ h' d le. read_chunks-Runs fuel h' d le) h c
        (r.read 4 c) (λ id got whole. omega (arith, fw.read_lt id c got whole)) (fw.read_le 4 c)

  read_magic-Runs : (c : r.Context) → Runs c (read_magic r c)
  unfolding read_magic
  read_magic-Runs c = go_on-Runs _ c _ (read_bytes-Runs 4 read_riff c (λ q. cc)) (λ riff c1 le1.
      go_on-Runs _ c1 _ (demand-Runs (text_eq riff riff_id) not_riff c1 (λ q. cc)) (λ t2 c2 le2.
        go_on-Runs _ c2 _ (read_bytes-Runs 4 read_size c2 (λ q. cc)) (λ size c3 le3.
          go_on-Runs _ c3 _ (read_bytes-Runs 4 read_wave c3 (λ q. cc)) (λ wave c4 le4.
            go_on-Runs _ c4 _ (demand-Runs (text_eq wave wave_id) not_wave c4 (λ q. cc))
              (λ t5 c5 le5. return-Runs _ c5)))))

  -- Over such a reader, with more rounds than its measure, `parse_header` ends by itself: with a
  -- header or with one of its own errors.
  pub parse_header-terminates :
      (fuel : ℕ) (c : r.Context) → left c < fuel → (parse_header r fuel c).0 ≢ err out_of_fuel
  unfolding parse_header
  parse_header-terminates fuel c small =
      (go_on-Runs _ c _ (read_magic-Runs c) (λ t c1 le1.
        go_on-Runs _ c1 _ (read_chunks-Runs fuel no_chunks c1 (omega arith)) (λ h c2 le2.
          go_on-Runs _ c2 _ (demand-Runs h.found_fmt no_fmt c2 (λ q. cc)) (λ t3 c3 le3.
            go_on-Runs _ c3 _ (demand-Runs h.found_data no_data c3 (λ q. cc))
              (λ t4 c4 le4. return-Runs _ c4))))).ends
