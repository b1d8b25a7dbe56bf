-- ===== src/Engine/Ends.antt =====
-- crates/around-engine/src/pipeline.rs: `run_stream_with_session` from the taking of the resources to
-- their giving back.
use around.Base.{
  ℕ, false, ◌≡◌, refl, sym, ◌∙◌, ap, arith, none, some, List, [], ◌∷◌, ◌++◌, Result, ok, err, subst,
}
use around.Base.Table.{lookup, update, lookup-update}
use around.Engine.State.{
  Engine, ActiveStream, AroundError, codec_drop, reader_drop, drop_stream, playing,
}
use around.Engine.Api.{set_status}
use around.Engine.Loop.{Loop, Round, take_resources, take_codec, take_reader, take_stream_resources}
use around.Engine.Schedule.{Op, run_loop, run_stream_with_session}
use around.Engine.Runs.{run_loop-Dropped}
use around.Engine.Take.{take_found}
use mathlib.Core.List.{append-nil}

-- A stream that holds what `prepare` gave it.
pub record Holds (s : ActiveStream) (codec stream_ptr reader_ctx : ℕ) : Type 0 where
  pub has_ptr : s.stream_ptr ≡ some stream_ptr
  pub has_codec : s.codec_ref ≡ some codec
  pub has_reader : s.reader_ctx ≡ some reader_ctx

-- The stream is gone, and the codec's stream and then the reader have been given back, each once.
pub record CleanedUp (e : Engine) (id codec stream_ptr reader_ctx : ℕ) (e' : Engine) : Type 0 where
  pub removed : lookup id e'.streams ≡ none
  pub released :
      e'.releases ≡ e.releases ++ (codec_drop codec stream_ptr ∷ reader_drop reader_ctx ∷ [])

module _ (id : ℕ) (s : ActiveStream) (codec stream_ptr reader_ctx : ℕ)
    (holds : Holds s codec stream_ptr reader_ctx) where
  abbrev loop_of : Loop
  loop_of = record {
    id = id;
    stream_ptr = stream_ptr;
    codec_ref = codec;
    reader_ctx = reader_ctx;
    has_seek_rx = s.seek_rx;
    sample_rate = s.sample_rate;
    channels = s.channels;
    total_frames_decoded = 0;
    consecutive_errors = 0;
    failure = none;
  }

  abbrev emptied : ActiveStream
  emptied = record s { stream_ptr = none; codec_ref = none; reader_ctx = none; seek_rx = false }

  take_resources-holds : take_resources id s ≡ (ok loop_of, emptied)
  unfolding take_resources take_codec take_reader
  take_resources-holds =
      simp
        (holds.has_ptr, holds.has_codec, holds.has_reader, take_resources, take_codec, take_reader)
        refl

  abbrev engine_of : Engine → Engine
  engine_of e = record e {
    streams = update id (set_status playing) (update id (λ _. emptied) e.streams);
  }

  takes :
      (e : Engine)
      → lookup id e.streams ≡ some s
      → take_stream_resources id e
        ≡ (ok loop_of, record e { streams = update id (λ _. emptied) e.streams })
  takes e found =
      take_found id e s found
      ∙ ap (λ t. (t.0, record e { streams = update id (λ _. t.1) e.streams })) take_resources-holds

  runs :
      (schedule : List (List Op × Round)) (e : Engine)
      → lookup id e.streams ≡ some s
      → run_stream_with_session id schedule e ≡ run_loop schedule (engine_of e) loop_of
  unfolding run_stream_with_session
  runs schedule e found =
      subst
        (λ t.
          elim t.0 [
            | err x ↦ some (err x, t.1)
            | ok l ↦
                run_loop schedule
                  (record t.1 { streams = update id (set_status playing) t.1.streams }) l
          ]
          ≡ run_loop schedule (engine_of e) loop_of)
        (sym (takes e found)) refl

  held :
      (e : Engine)
      → lookup id e.streams ≡ some s
      → lookup id (engine_of e).streams ≡ some (set_status playing emptied)
  held e found = ground (
    arith,
    lookup-update id id (λ _. emptied) e.streams,
    lookup-update id id (set_status playing) (update id (λ _. emptied) e.streams),
  )

  empty_handed : drop_stream (some (set_status playing emptied)) ≡ []
  unfolding drop_stream
  empty_handed = refl

-- Where `run_stream_with_session` returns for a stream that the engine holds with its three resources,
-- however its loop ends and whatever is called meanwhile, the stream is gone from the engine, and the
-- codec's stream and then the reader have been given back, each exactly once.
pub run_stream_with_session-CleanedUp :
    (id : ℕ) (schedule : List (List Op × Round)) (e : Engine) (s : ActiveStream)
    (codec stream_ptr reader_ctx : ℕ)
    → lookup id e.streams ≡ some s
    → Holds s codec stream_ptr reader_ctx
    → (result : Result AroundError (Unit {0})) (e' : Engine)
    → run_stream_with_session id schedule e ≡ some (result, e')
    → CleanedUp e id codec stream_ptr reader_ctx e'
run_stream_with_session-CleanedUp id schedule e s codec stream_ptr reader_ctx found holds result e'
      h =
    let l = loop_of id s codec stream_ptr reader_ctx holds in
    let d =
      run_loop-Dropped schedule (engine_of id s codec stream_ptr reader_ctx holds e) l _
        (held id s codec stream_ptr reader_ctx holds e found) result e'
        (sym (runs id s codec stream_ptr reader_ctx holds schedule e found) ∙ h) in
    record {
      removed = d.removed;
      released =
          d.released
          ∙ ap
              (λ x.
                (e.releases ++ (codec_drop codec stream_ptr ∷ reader_drop reader_ctx ∷ [])) ++ x)
              (empty_handed id s codec stream_ptr reader_ctx holds)
          ∙ append-nil _;
    }
