-- ===== src/Codec/Wav/Opening.antt =====
-- crates/around-codec-wav/src/lib.rs: what `open` accepts, over any reader, and where `seek` moves it.
use around.Base.{
  ℕ, zero, suc, ◌%◌, ◌==◌, min, Bool, true, false, Option, none, some, List, length, Result, ok,
  err, ok_inj, ◌≡◌, refl, subst, inl, inr, Bool-cases,
}
use around.Base.Text.{Text, text_eq}
use around.Codec.Bytes.{u16_at, u32_at}
use around.Codec.Io.{Reader}
use around.Codec.Wav.{WavStream}
use around.Codec.Wav.Parser.{
  HeaderError, Parser, go_on, demand, filled, skip, read_bytes, no_fmt, no_data, skip_chunk,
  unsupported_bit_depth, unsupported_channels,
}
use around.Codec.Wav.Header.{
  Chunks, no_chunks, Header, header_of, fmt_chunk, skip_extra, chunk_body, one_chunk, after_id,
  read_chunks, read_magic, parse_header, fmt_id, data_id, is_depth, is_channels,
}
use around.Codec.Wav.Stream.{
  StreamInfo, open_wav, after_header, after_seek, stream_of, frame_size, to_i64,
}

-- `P` holds of a value that a step answers.
abbrev Answers : {C A : Type 0} → (A → Type 0) → Result HeaderError A × C → Type 0
Answers {A = A} P answer = (a : A) → answer.0 ≡ ok a → P a

go_on-Answers :
    {C A B : Type 0} (P : B → Type 0) (f : A → Parser C B) (answer : Result HeaderError A × C)
    → ((a : A) (d : C) → answer.0 ≡ ok a → Answers P (f a d))
    → Answers P (go_on f answer)
go_on-Answers P f (ok a, d) h = h a d refl
go_on-Answers P f (err e, d) h = λ b q. cc

demanded :
    {C : Type 0} (b : Bool) (e : HeaderError) (c : C) (t : Unit {0})
    → (demand b e c).0 ≡ ok t
    → b ≡ true
demanded true e c t h = refl
demanded false e c t h = cc

-- The loop's variables: the samples' place is never set, and a `fmt ` chunk was valid.
record IsSound (h : Chunks) : Type 0 where
  place : h.data_start ≡ 0
  channels_ok : h.found_fmt ≡ true → is_channels h.channels ≡ true
  depth_ok : h.found_fmt ≡ true → is_depth h.bit_depth ≡ true

module _ (r : Reader) where
  fmt_chunk-IsSound :
      (n : ℕ) (h : Chunks) (c : r.Context) → IsSound h → Answers IsSound (fmt_chunk r n h c)
  unfolding fmt_chunk
  fmt_chunk-IsSound n h c w = go_on-Answers IsSound _ (read_bytes r (min n 16) _ c) (λ part c1 q1.
      let buf = filled 16 part in
      go_on-Answers IsSound _ (demand (u16_at 0 buf == 1) _ c1) (λ t2 c2 q2.
        go_on-Answers IsSound _ (demand (is_depth (u16_at 14 buf % 256)) _ c2) (λ t3 c3 q3.
          go_on-Answers IsSound _ (demand (is_channels (u16_at 2 buf % 256)) _ c3) (λ t4 c4 q4.
            go_on-Answers IsSound _ (skip_extra r n c4) (λ t5 c5 q5 h' e.
              let same = ok_inj e in
              subst IsSound same (record {
                place = w.place;
                channels_ok = λ found.
                    demanded (is_channels (u16_at 2 buf % 256))
                      (unsupported_channels (u16_at 2 buf % 256)) c3 t4 q4;
                depth_ok = λ found.
                    demanded (is_depth (u16_at 14 buf % 256))
                      (unsupported_bit_depth (u16_at 14 buf % 256)) c2 t3 q3;
              }))))))

  module _ (later : Chunks → Parser r.Context Chunks)
      (ready : (h : Chunks) (c : r.Context) → IsSound h → Answers IsSound (later h c)) where
    chunk_body-IsSound :
        (id : Text) (n : ℕ) (h : Chunks) (c : r.Context)
        → IsSound h
        → Answers IsSound (chunk_body r later id n h c)
    unfolding chunk_body
    chunk_body-IsSound id n h c w = elim (Bool-cases (text_eq id fmt_id)) [
      | inl is_fmt ↦ rw is_fmt (
          go_on-Answers IsSound later (fmt_chunk r n h c)
            (λ h' d q. ready h' d (fmt_chunk-IsSound n h c w h' q)))
      | inr other ↦ elim (Bool-cases (text_eq id data_id)) [
        | inl is_data ↦
            rw (other, is_data)
              (λ h' e.
                subst IsSound (ok_inj e)
                  (record { place = refl; channels_ok = w.channels_ok; depth_ok = w.depth_ok }))
        | inr unknown ↦
            rw (other, unknown)
              (go_on-Answers IsSound (λ t. later h) (skip r n skip_chunk c) (λ t d q. ready h d w))
      ]
    ]

    after_id-IsSound :
        (h : Chunks) (answer : Option (List ℕ) × r.Context)
        → IsSound h
        → Answers IsSound (after_id r later h answer)
    unfolding after_id one_chunk
    after_id-IsSound h (none, d) w = λ h' e. subst IsSound (ok_inj e) w
    after_id-IsSound h (some id, d) w = elim (Bool-cases (length id == 4)) [
      | inl whole ↦ rw whole (
          go_on-Answers IsSound _ (read_bytes r 4 _ d)
            (λ len d' q. chunk_body-IsSound (filled 4 id) (u32_at 0 len) h d' w))
      | inr cut ↦ rw cut (λ h' e. subst IsSound (ok_inj e) w)
    ]

  read_chunks-IsSound :
      (fuel : ℕ) (h : Chunks) (c : r.Context) → IsSound h → Answers IsSound (read_chunks r fuel h c)
  unfolding read_chunks
  read_chunks-IsSound zero h c w = λ h' e. cc
  read_chunks-IsSound (suc fuel) h c w =
      after_id-IsSound (read_chunks r fuel) (λ h' d w'. read_chunks-IsSound fuel h' d w') h
        (r.read 4 c) w

no_chunks-IsSound : IsSound no_chunks
no_chunks-IsSound = record { place = refl; channels_ok = λ h. cc; depth_ok = λ h. cc }

-- What `open` gives where it succeeds.
pub record IsOpened (s : WavStream) (info : StreamInfo) : Type 0 where
  pub channels_ok : is_channels s.channels ≡ true
  pub depth_ok : is_depth s.bit_depth ≡ true
  pub frame_bytes : s.bytes_per_frame ≡ frame_size s
  pub at_start : s.position ≡ 0
  pub place : s.data_start ≡ 0
  pub same_rate : info.channels ≡ s.channels
  pub same_frames : info.total_frames ≡ s.total_frames

header-IsOpened :
    (h : Chunks)
    → IsSound h
    → h.found_fmt ≡ true
    → IsOpened (stream_of (header_of h)).0 (stream_of (header_of h)).1
unfolding stream_of header_of frame_size
header-IsOpened h w found = record {
  channels_ok = w.channels_ok found;
  depth_ok = w.depth_ok found;
  frame_bytes = refl;
  at_start = refl;
  place = w.place;
  same_rate = refl;
  same_frames = refl;
}

module _ (r : Reader) (fuel : ℕ) where
  abbrev Opens : Header → Type 0
  Opens h = IsOpened (stream_of h).0 (stream_of h).1

  parse_header-Opens : (c : r.Context) → Answers Opens (parse_header r fuel c)
  unfolding parse_header
  parse_header-Opens c = go_on-Answers Opens _ (read_magic r c) (λ t c1 q1.
      go_on-Answers Opens _ (read_chunks r fuel no_chunks c1) (λ h c2 q2.
        go_on-Answers Opens _ (demand h.found_fmt no_fmt c2) (λ t3 c3 q3.
          go_on-Answers Opens _ (demand h.found_data no_data c3) (λ t4 c4 q4 h' e.
            subst Opens (ok_inj e) (
              header-IsOpened h (read_chunks-IsSound r fuel no_chunks c1 no_chunks-IsSound h q2)
                (demanded h.found_fmt no_fmt c2 t3 q3))))))

  after_seek-Opens :
      (h : Header) (s : WavStream) (info : StreamInfo) (answer : Option ℕ × r.Context)
      → Opens h
      → (after_seek h answer).0 ≡ ok (s, info)
      → IsOpened s info
  unfolding after_seek
  after_seek-Opens h s info (none, c) w e = cc
  after_seek-Opens h s info (some at, c) w e =
      let same : stream_of h ≡ (s, info) = ok_inj e in subst (λ p. IsOpened p.0 p.1) same w

  after_header-Opens :
      (s : WavStream) (info : StreamInfo) (answer : Result HeaderError Header × r.Context)
      → Answers Opens answer
      → (after_header r answer).0 ≡ ok (s, info)
      → IsOpened s info
  unfolding after_header
  after_header-Opens s info (err x, c) w e = cc
  after_header-Opens s info (ok h, c) w e =
      after_seek-Opens h s info (r.seek (to_i64 h.data_start) 0 c) (w h refl) e

  -- Over any reader, a stream that `open` hands out has 1 to 8 channels and 8, 16, 24 or 32 bits, its
  -- frames are as large as `read` takes them, it starts at frame 0, and its information agrees. The
  -- place of its samples is always 0.
  pub open_wav-IsOpened :
      (c : r.Context) (s : WavStream) (info : StreamInfo)
      → (open_wav r fuel c).0 ≡ ok (s, info)
      → IsOpened s info
  unfolding open_wav
  open_wav-IsOpened c s info e =
      after_header-Opens s info (parse_header r fuel c) (parse_header-Opens c) e
