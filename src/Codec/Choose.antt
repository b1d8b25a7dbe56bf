-- ===== src/Codec/Choose.antt =====
-- crates/around-engine/src/pipeline.rs: `Engine::open_codec`, which chooses the codec for a source.
-- `SafeCodecRef` is a record of the two functions that are called here; a stream is what its codec's
-- `open` hands out. The boxes that hold a reader are freed with it.
use around.Base.{
  ℕ, ◌&&◌, ltb, leb, if◌then◌else◌, Option, none, some, List, [], ◌∷◌, Result, ok, err, ◌>>=◌,
}
use around.Base.Text.{Text}
use around.Codec.Io.{ReadSeek, bridge, read_cb}
use around.Codec.Wav.{WavStream}
use around.Codec.Wav.Stream.{StreamInfo, Opened, probe, open_wav}
use around.Engine.State.{AroundError, unsupported_format}

-- A registered codec over readers of type `C`.
pub record Codec (C : Type 0) : Type 0 where
  pub probe : List ℕ → Text → ℕ
  pub open_reader : C → Opened × C

-- The built-in codec, with fuel for its loop over the chunks.
abbrev pub wav_codec : (r : ReadSeek) → ℕ → Codec r.Source
wav_codec r fuel = record { probe = probe; open_reader = open_wav (bridge r) fuel }

-- `best_conf` and `best_codec`.
pub record Best (C : Type 0) : Type 0 where
  pub best_conf : ℕ
  pub best_codec : Option (Codec C)

module _ {C : Type 0} where
  -- The callback of `for_each_codec`.
  unfoldable pub consider : List ℕ → Codec C → Best C → Best C
  consider header codec best =
      let conf = codec.probe header [] in
      if leb 50 conf && ltb best.best_conf conf
      then record { best_conf = conf; best_codec = some codec }
      else best

  unfoldable pub for_each_codec : List ℕ → List (Codec C) → Best C → Best C
  for_each_codec header [] best = best
  for_each_codec header (codec ∷ codecs) best =
      for_each_codec header codecs (consider header codec best)

  -- `best_codec.unwrap_or_else(..)`
  unfoldable pub chosen_or : Codec C → Option (Codec C) → Codec C
  chosen_or fallback none = fallback
  chosen_or fallback (some codec) = codec

  unfoldable pub choose : List (Codec C) → Codec C → List ℕ → Codec C
  choose codecs fallback header =
      chosen_or fallback
        (for_each_codec header codecs (record { best_conf = 0; best_codec = none })).best_codec

-- The stream, its information, its codec and the reader that the codec keeps.
pub record OpenedCodec (C : Type 0) : Type 0 where
  pub stream : WavStream
  pub info : StreamInfo
  pub codec : Codec C
  pub reader : C

-- The bytes that one `read_cb` of 8192 gives, none where it fails.
unfoldable pub header_bytes : {S : Type 0} → Option (List ℕ) × S → List ℕ
header_bytes (some bytes, s) = bytes
header_bytes (none, s) = []

unfoldable pub opened_codec :
    {C : Type 0} → Codec C → Opened × C → Result AroundError (OpenedCodec C)
opened_codec codec (ok (stream, info), reader) =
    ok (record { stream = stream; info = info; codec = codec; reader = reader })
opened_codec codec (err code, reader) = err unsupported_format

module _ (r : ReadSeek) where
  -- `open_codec`, given what `open_seekable` answers for the probe and for the codec.
  unfoldable pub open_codec :
      ℕ
      → List (Codec r.Source)
      → Result AroundError r.Source
      → Result AroundError r.Source
      → Result AroundError (OpenedCodec r.Source)
  open_codec fuel codecs probe_source codec_source = do
    probe_reader ← probe_source
    let header = header_bytes (read_cb r 8192 probe_reader)
    let chosen = choose codecs (wav_codec r fuel) header
    reader ← codec_source
    opened_codec chosen (chosen.open_reader reader)
