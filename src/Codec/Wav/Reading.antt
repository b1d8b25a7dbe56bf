-- ===== src/Codec/Wav/Reading.antt =====
-- crates/around-codec-wav/src/lib.rs: how far `read` gets, over any reader.
use around.Base.{
  ℕ, zero, suc, ◌+◌, ◌%◌, ◌^◌, ◌*◌, ◌/◌, ◌≤◌, ◌<◌, ◌==◌, false, ltb, List, length, length-set, set,
  get_elem?, get_elem?-set_ne, Option, none, some, ◌≡◌, refl, ap, ◌∙◌, arith, inl, inr, Bool-cases,
}
use native.Mathlib.Nat.{suc-mul, div-mul-le_self}
use around.Base.Int.{ℤ, pos}
use around.Codec.Io.{Reader}
use around.Codec.Wav.{WavStream}
use around.Codec.Wav.Samples.{Floats, signed}
use around.Codec.Wav.Stream.{
  ReadLoop, as_usize, at_end, frame_size, convert, put_frame, with_bytes, read_frames, read,
}

-- While there is room in an `i32`, the count is a place in the buffer.
as_usize_small : (n : ℕ) → n < 2 ^ 31 → as_usize n ≡ n
unfolding as_usize
as_usize_small n small = ground arith

signed_small : (n : ℕ) → n < 2 ^ 31 → signed 32 n ≡ pos n
unfolding signed
signed_small n small = ground arith

-- The samples of so many more frames can be counted.
abbrev HasRoom : {F C : Type 0} → ℕ → ReadLoop F C → Type 0
HasRoom rounds l = l.samples_written + rounds * l.stream.channels < 2 ^ 31

module _ (fl : Floats) (depth written : ℕ) (raw : List ℕ) where
  length-convert :
      (more ch : ℕ) (out : List fl.F32)
      → length (convert fl more ch depth raw written out) ≡ length out
  unfolding convert
  length-convert zero ch out = refl
  length-convert (suc more) ch out =
      length-convert more (ch + 1) (set out ((as_usize written + ch) % 2 ^ 64) _)
      ∙ length-set out ((as_usize written + ch) % 2 ^ 64) _

  -- The samples of one frame are written side by side, and nothing else.
  convert-beyond :
      (more ch : ℕ) (out : List fl.F32) (i : ℕ)
      → written + (ch + more) < 2 ^ 31
      → written + (ch + more) ≤ i
      → get_elem? (convert fl more ch depth raw written out) i ≡ get_elem? out i
  unfolding convert
  convert-beyond zero ch out i small h = refl
  convert-beyond (suc more) ch out i small h =
      convert-beyond more (ch + 1) (set out ((as_usize written + ch) % 2 ^ 64) _) i (omega arith)
        (omega arith)
      ∙ get_elem?-set_ne out _ (omega (arith, as_usize_small written (omega (arith, small)), small))

-- What some rounds of the loop have done.
pub record Advanced {F C : Type 0} (rounds : ℕ) (l l' : ReadLoop F C) : Type 0 where
  pub frames : ℕ
  pub at_most : frames ≤ rounds
  pub stream : l'.stream ≡ record l.stream { position = l.stream.position + frames }
  pub written : l'.samples_written ≡ l.samples_written + frames * l.stream.channels
  pub same_length : length l'.out ≡ length l.out
  pub beyond : (i : ℕ) → l'.samples_written ≤ i → get_elem? l'.out i ≡ get_elem? l.out i
  pub within :
      0 < l.stream.total_frames
      → l.stream.position ≤ l.stream.total_frames
      → l.stream.position + frames ≤ l.stream.total_frames

module _ {F C : Type 0} where
  stopped : (rounds : ℕ) (l : ReadLoop F C) (c : C) → Advanced rounds l (record l { context = c })
  stopped rounds l c = record {
    frames = 0;
    at_most = omega arith;
    stream = ap (λ p. record l.stream { position = p }) (omega arith);
    written = omega arith;
    same_length = refl;
    beyond = λ i h. refl;
    within = λ p q. omega arith;
  }

module _ (fl : Floats) {C : Type 0} where
  one_more :
      (rounds : ℕ) (l l' : ReadLoop fl.F32 C) (raw : List ℕ)
      → HasRoom (suc rounds) l
      → at_end l.stream ≡ false
      → Advanced rounds (put_frame fl raw l) l'
      → Advanced (suc rounds) l l'
  unfolding put_frame at_end
  one_more rounds l l' raw room going a = record {
    frames = a.frames + 1;
    at_most = omega (arith, a.at_most);
    stream = a.stream ∙ ap (λ p. record l.stream { position = p }) (omega arith);
    written = omega (
      arith,
      a.written,
      room,
      suc-mul rounds l.stream.channels,
      suc-mul a.frames l.stream.channels,
    );
    same_length = a.same_length ∙ length-convert fl _ _ raw _ 0 l.out;
    beyond = λ i h.
        a.beyond i h
        ∙ convert-beyond fl _ _ raw l.stream.channels 0 l.out i
            (omega (arith, room, suc-mul rounds l.stream.channels))
            (omega (arith, a.written, h, room, suc-mul rounds l.stream.channels));
    within = λ p q. omega (arith, a.within p (ground (arith, going)));
  }

-- Where the reader stands does not matter.
from_context :
    {F C : Type 0} (rounds : ℕ) (l l' : ReadLoop F C) (c : C)
    → Advanced rounds (record l { context = c }) l'
    → Advanced rounds l l'
from_context rounds l l' c a = record {
  frames = a.frames;
  at_most = a.at_most;
  stream = a.stream;
  written = a.written;
  same_length = a.same_length;
  beyond = a.beyond;
  within = a.within;
}

module _ (fl : Floats) (r : Reader) where
  with_bytes-Advanced :
      (rounds : ℕ) (later : ReadLoop fl.F32 r.Context → ReadLoop fl.F32 r.Context)
      (l : ReadLoop fl.F32 r.Context) (answer : Option (List ℕ) × r.Context)
      → HasRoom (suc rounds) l
      → at_end l.stream ≡ false
      → ((m : ReadLoop fl.F32 r.Context) → HasRoom rounds m → Advanced rounds m (later m))
      → Advanced (suc rounds) l (with_bytes fl r later l answer)
  unfolding with_bytes
  with_bytes-Advanced rounds later l (none, c) room going go = stopped (suc rounds) l c
  with_bytes-Advanced rounds later l (some raw, c) room going go =
      elim (Bool-cases (length raw == 0)) [
        | inl ended ↦ rw ended (stopped (suc rounds) l c)
        | inr bytes ↦ elim (Bool-cases (ltb (length raw) (frame_size l.stream))) [
          | inl cut ↦ rw (bytes, cut) (stopped (suc rounds) l c)
          | inr whole ↦
              rw (bytes, whole)
                (from_context (suc rounds) l _ c (
                  one_more fl rounds (record l { context = c }) _ raw room going
                    (go _ (
                      unfold put_frame in
                      (omega (arith, room, suc-mul rounds l.stream.channels))))))
        ]
      ]

  read_frames-Advanced :
      (rounds : ℕ) (l : ReadLoop fl.F32 r.Context)
      → HasRoom rounds l
      → Advanced rounds l (read_frames fl r rounds l)
  unfolding read_frames
  read_frames-Advanced zero l room = stopped zero l l.context
  read_frames-Advanced (suc rounds) l room = elim (Bool-cases (at_end l.stream)) [
    | inl done ↦ rw done (stopped (suc rounds) l l.context)
    | inr going ↦ rw going (
        with_bytes-Advanced rounds (read_frames fl r rounds) l
          (r.read (frame_size l.stream) l.context) room going (λ m. read_frames-Advanced rounds m))
  ]

  -- What `read` answers for a stream with channels and a buffer.
  pub record ReadAnswer (s : WavStream) (out : List fl.F32)
      (answer : ℤ × Option (ReadLoop fl.F32 r.Context)) : Type 0 where
    pub after : ReadLoop fl.F32 r.Context
    pub answered : answer ≡ (pos after.samples_written, some after)
    pub frames : ℕ
    pub whole_frames : after.samples_written ≡ frames * s.channels
    pub in_buffer : after.samples_written ≤ length out
    pub position : after.stream ≡ record s { position = s.position + frames }
    pub same_length : length after.out ≡ length out
    pub beyond : (i : ℕ) → after.samples_written ≤ i → get_elem? after.out i ≡ get_elem? out i
    pub within :
        0 < s.total_frames → s.position ≤ s.total_frames → s.position + frames ≤ s.total_frames

  -- Over any reader, and into a buffer of fewer than 2^31 samples, `read` answers how many samples it
  -- wrote: whole frames, never more than the buffer holds. The buffer keeps its length and what stands
  -- past the samples, the stream's position moves by the frames, not past the file's frames, and
  -- nothing else of the stream changes.
  pub read-ReadAnswer :
      (s : WavStream) (out : List fl.F32) (c : r.Context)
      → 0 < s.channels
      → length out < 2 ^ 31
      → ReadAnswer s out (read fl r (some s) (some out) c)
  unfolding read
  read-ReadAnswer s out c some_channels small =
      let start : ReadLoop fl.F32 r.Context = record {
        stream = s;
        context = c;
        out = out;
        samples_written = 0;
      } in
      let fits = div-mul-le_self (length out) s.channels in
      let a = read_frames-Advanced (length out / s.channels) start (omega (arith, fits, small)) in
      let in_buffer : start.samples_written + a.frames * s.channels ≤ length out =
        grind (arith, fits, a.at_most) in
      record {
        after = read_frames fl r (length out / s.channels) start;
        answered =
            ap (λ n. (n, some (read_frames fl r (length out / s.channels) start)))
              (signed_small _ (omega (arith, a.written, in_buffer, small)));
        frames = a.frames;
        whole_frames = omega (arith, a.written);
        in_buffer = omega (arith, a.written, in_buffer);
        position = a.stream;
        same_length = a.same_length;
        beyond = a.beyond;
        within = a.within;
      }
