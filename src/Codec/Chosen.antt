-- ===== src/Codec/Chosen.antt =====
-- crates/around-engine/src/pipeline.rs: which codec `open_codec` chooses, and a WAV file that it opens.
use around.Base.{
  ℕ, ◌≤◌, ◌<◌, ◌^◌, max, false, ◌&&◌, ltb, leb, Bool-cases, inl, inr, ◌⊎◌, none, some, List, [],
  ◌∷◌, ◌++◌, All, All-imp, ok, ◌≡◌, refl, ap, arith, length,
}
use around.Codec.Io.{cursor, Cursor}
use around.Codec.Io.{read_cb}
use around.Codec.Wav.Stream.{stream_of}
use around.Codec.Wav.File.{WavFile, IsWavFile, wav_bytes, found_header, rounds_of, file_of}
use around.Codec.Wav.RoundTrip.{open_wav-wav_bytes}
use around.Codec.Choose.{
  Codec, Best, consider, for_each_codec, chosen_or, choose, open_codec, opened_codec, wav_codec,
  header_bytes,
}

module _ {C : Type 0} (header : List ℕ) where
  abbrev pub confidence : Codec C → ℕ
  confidence c = c.probe header []

  -- `c` is the first codec of the list whose confidence is the largest, and it is 50 or more.
  pub record IsFirstBest (codecs : List (Codec C)) (c : Codec C) : Type 0 where
    pub before : List (Codec C)
    pub behind : List (Codec C)
    pub there : codecs ≡ before ++ c ∷ behind
    pub enough : 50 ≤ confidence c
    pub above : All (λ d. confidence d < confidence c) before
    pub not_below : All (λ d. confidence d ≤ confidence c) behind

  -- Where the loop ends, from `best`.
  abbrev LoopEnd : List (Codec C) → Best C → Best C → Type 0
  LoopEnd codecs best result =
      ((result ≡ best) × All (λ d. confidence d ≤ max best.best_conf 49) codecs)
      ⊎ ((c : Codec C) × (result ≡ record { best_conf = confidence c; best_codec = some c })
          × IsFirstBest codecs c
          × (best.best_conf < confidence c))

  -- A codec in front of those of which one is the first best and better still.
  in_front :
      (d c : Codec C) (ds : List (Codec C))
      → confidence d < confidence c
      → IsFirstBest ds c
      → IsFirstBest (d ∷ ds) c
  in_front d c ds lt first = record {
    before = d ∷ first.before;
    behind = first.behind;
    there = ap (λ xs. d ∷ xs) first.there;
    enough = first.enough;
    above = (lt, first.above);
    not_below = first.not_below;
  }

  module _ (d : Codec C) (ds : List (Codec C)) (best : Best C) where
    taken :
        (result : Best C)
        → 50 ≤ confidence d
        → best.best_conf < confidence d
        → LoopEnd ds (record { best_conf = confidence d; best_codec = some d }) result
        → LoopEnd (d ∷ ds) best result
    taken result high better (inr (c, same, first, lt)) =
        inr (c, same, in_front d c ds lt first, omega (arith, better, lt))
    taken result high better (inl (same, low)) = inr (
      d,
      same,
      record {
        before = [];
        behind = ds;
        there = refl;
        enough = high;
        above = tt;
        not_below = All-imp ds (λ x lx. omega (arith, lx, high)) low;
      },
      better,
    )

    passed :
        (result : Best C)
        → confidence d ≤ max best.best_conf 49
        → LoopEnd ds best result
        → LoopEnd (d ∷ ds) best result
    passed result worse (inl (same, low)) = inl (same, (worse, low))
    passed result worse (inr (c, same, first, lt)) =
        inr (c, same, in_front d c ds (omega (arith, worse, lt, first.enough)) first, lt)

  for_each_codec-LoopEnd :
      (codecs : List (Codec C)) (best : Best C)
      → LoopEnd codecs best (for_each_codec header codecs best)
  unfolding for_each_codec consider
  for_each_codec-LoopEnd [] best = inl (refl, tt)
  for_each_codec-LoopEnd (d ∷ ds) best =
      elim (Bool-cases (leb 50 (confidence d) && ltb best.best_conf (confidence d))) [
        | inl better ↦ rw better (
            taken d ds best _ (ground arith) (ground arith) (
              for_each_codec-LoopEnd ds (record { best_conf = confidence d; best_codec = some d })))
        | inr worse ↦ rw worse (passed d ds best _ (ground arith) (for_each_codec-LoopEnd ds best))
      ]

  -- The engine takes the first codec of the largest confidence, where that is 50 or more, and else the
  -- built-in codec; it takes that only where every codec's confidence is below 50.
  pub choose-IsFirstBest :
      (codecs : List (Codec C)) (fallback : Codec C)
      → IsFirstBest codecs (choose codecs fallback header)
        ⊎ ((choose codecs fallback header ≡ fallback) × All (λ d. confidence d < 50) codecs)
  unfolding choose chosen_or
  choose-IsFirstBest codecs fallback =
      elim (for_each_codec-LoopEnd codecs (record { best_conf = 0; best_codec = none })) [
        | inl (same, low) ↦ rw same (inr (refl, All-imp codecs (λ x lx. omega (arith, lx)) low))
        | inr (c, same, first, lt) ↦ rw same (inl first)
      ]

  loop_keeps :
      (codecs : List (Codec C)) (best : Best C)
      → All (λ d. confidence d < 50) codecs
      → for_each_codec header codecs best ≡ best
  unfolding for_each_codec consider
  loop_keeps [] best low = refl
  loop_keeps (d ∷ ds) best low =
      let unsure : leb 50 (confidence d) ≡ false = ground (arith, low.0) in
      rw unsure (loop_keeps ds best low.1)

  -- Where no codec is confident enough, the built-in one is taken.
  choose_fallback :
      (codecs : List (Codec C)) (fallback : Codec C)
      → All (λ d. confidence d < 50) codecs
      → choose codecs fallback header ≡ fallback
  unfolding choose chosen_or
  choose_fallback codecs fallback low =
      rw (loop_keeps codecs (record { best_conf = 0; best_codec = none }) low) refl

-- A WAV file in memory whose chunks before the samples have even lengths, where no registered codec is
-- confident, is opened by the built-in codec with the header that the file states, except that the
-- samples are taken to begin at the file's first byte; the codec keeps the reader, which is there.
pub open_codec-wav_bytes :
    (f : WavFile) (fuel : ℕ) (codecs : List (Codec Cursor))
    → IsWavFile f
    → length (wav_bytes f) < 2 ^ 63
    → All (λ d. confidence (header_bytes (read_cb cursor 8192 (file_of f))) d < 50) codecs
    → let enough = rounds_of f fuel in
      open_codec cursor enough codecs (ok (file_of f)) (ok (file_of f))
      ≡ ok (record {
        stream = (stream_of (found_header f)).0;
        info = (stream_of (found_header f)).1;
        codec = wav_codec cursor enough;
        reader = file_of f;
      })
unfolding open_codec opened_codec
open_codec-wav_bytes f fuel codecs w fits low =
    rw
      (choose_fallback (header_bytes (read_cb cursor 8192 (file_of f))) codecs
        (wav_codec cursor (rounds_of f fuel)) low)
      (rw (open_wav-wav_bytes f w fuel fits) refl)
