-- ===== src/Engine/Seek.antt =====
-- crates/around-engine/src/pipeline.rs: `Engine::seek_stream`, and what the loop makes of a request.
use around.Base.{
  suc, subst, sym, ℕ, Bool, true, false, ◌≡◌, ◌⊎◌, inl, inr, Bool-cases, Option-cases, ap, ◌∙◌,
  refl, arith, some, List, [], ◌∷◌, Result, ok, err,
}
use around.Base.Int.{ℤ, pos, negsuc}
use around.Base.Table.{lookup, update}
use around.Engine.State.{Engine, ActiveStream, is_ended, playing, paused, buffering}
use around.Engine.Api.{
  SeekError, not_seekable, stream_ended, seek_found, seek_stream, queue_seek, past_end,
}
use around.Engine.Loop.{
  Loop, Round, submitted, again, apply_seek, drain_seeks, decode_round, read_block, ms_to_frames,
}

-- When a request for a position of a stream is accepted.
pub record CanSeek (s : ActiveStream) (position_ms : ℕ) : Type 0 where
  pub seekable : s.seekable ≡ true
  pub within : past_end position_ms s.duration_ms ≡ false
  pub live : is_ended s.state.status ≡ false
  pub connected : s.seek_tx ≡ true

abbrev pub Answered :
    (id position_ms : ℕ) → Engine → ActiveStream → Result SeekError ℕ × Engine → Type 0
Answered id position_ms e s answer =
    (CanSeek s position_ms
      × (answer
          ≡ (ok position_ms, record e { streams = update id (queue_seek position_ms) e.streams })))
    ⊎ ((x : SeekError) × (¬ CanSeek s position_ms) × (answer ≡ (err x, e)))

seek_found-Answered :
    (id position_ms : ℕ) (e : Engine) (s : ActiveStream)
    → Answered id position_ms e s (seek_found e id position_ms s)
unfolding seek_found
seek_found-Answered id position_ms e s = elim (Bool-cases s.seekable) [
  | inr fixed ↦ simp fixed (inr (not_seekable, ground arith, refl))
  | inl seekable ↦ elim (Bool-cases (past_end position_ms s.duration_ms)) [
    | inl past ↦ simp (seekable, past) (inr (stream_ended, ground arith, refl))
    | inr within ↦ elim (Bool-cases (is_ended s.state.status)) [
      | inl ended ↦ simp (seekable, within, ended) (inr (stream_ended, ground arith, refl))
      | inr live ↦ elim (Bool-cases s.seek_tx) [
        | inr gone ↦ simp (seekable, within, live, gone) (inr (stream_ended, ground arith, refl))
        | inl connected ↦ simp (seekable, within, live, connected) (inl (ground arith, refl))
      ]
    ]
  ]
]

-- A request for a known stream is accepted exactly where `CanSeek` holds. It is then queued and marks
-- the stream as buffering, and otherwise nothing changes.
pub seek_stream_lem :
    (id position_ms : ℕ) (e : Engine) (s : ActiveStream)
    → lookup id e.streams ≡ some s
    → Answered id position_ms e s (seek_stream id position_ms e)
seek_stream_lem id position_ms e s found =
    subst (Answered id position_ms e s) (sym here) (seek_found-Answered id position_ms e s)
  where
    here : seek_stream id position_ms e ≡ seek_found e id position_ms s
    here = unfold seek_stream in rw (found, seek_stream)

ok≢err : {q : ℕ} {x : SeekError} → ◌≡◌ {A = Result SeekError ℕ} (ok q) (err x) → ⊥
ok≢err h = cc

-- A refused request changes nothing.
pub seek_stream_refused :
    (id position_ms : ℕ) (e : Engine) (x : SeekError)
    → (seek_stream id position_ms e).0 ≡ err x
    → (seek_stream id position_ms e).1 ≡ e
seek_stream_refused id position_ms e x h = elim (Option-cases (lookup id e.streams)) [
  | inl missing ↦ unfold seek_stream in rw (missing, seek_stream) refl
  | inr (s, found) ↦ elim (seek_stream_lem id position_ms e s found) [
    | inl (_, accepted) ↦ absurd (ok≢err (ap (λ r. r.0) (sym accepted) ∙ h))
    | inr (_, _, refused) ↦ ap (λ r. r.1) refused
  ]
]

drain-fails :
    (codec_seek : ℕ → ℤ) (seeks : List ℕ) (s : ActiveStream) (l : Loop)
    → ((frame : ℕ) → (k : ℕ) × (codec_seek frame ≡ negsuc k))
    → drain_seeks codec_seek seeks s l ≡ (s, l)
unfolding drain_seeks apply_seek
drain-fails codec_seek [] s l fails = refl
drain-fails codec_seek (p ∷ seeks) s l fails =
    let (k, e) = fails (ms_to_frames p l.sample_rate) in
    rw (e, apply_seek) (drain-fails codec_seek seeks s l fails)

-- Where the codec refuses every seek, a buffering stream whose frames are read and sent goes on decoding
-- and stays in `Buffering`, the status that `seek_stream` has set.
pub failed_seek_keeps_status :
    (reconnect : Bool) (r : Round) (s : ActiveStream) (l : Loop)
    → ((frame : ℕ) → (k : ℕ) × (r.codec_seek frame ≡ negsuc k))
    → s.state.status ≡ buffering
    → r.submit ≡ submitted
    → (n : ℕ) → r.read ≡ pos (suc n)
    → ((decode_round reconnect r s l).0.state.status ≡ buffering)
      × ((decode_round reconnect r s l).2 ≡ again)
unfolding decode_round read_block
failed_seek_keeps_status reconnect r s l fails buffers sent n got =
    ground (arith, drain-fails r.codec_seek s.seeks (record s { seeks = [] }) l fails)

-- A paused stream's round changes nothing, but after a seek request has been queued that the codec
-- accepts, a round that reads and sends frames leaves the stream playing: the request ends the pause.
pub seek_resumes_paused :
    (reconnect : Bool) (r : Round) (position_ms : ℕ) (s : ActiveStream) (l : Loop)
    → s.state.status ≡ paused
    → s.seeks ≡ []
    → l.has_seek_rx ≡ true
    → (frame : ℕ) → r.codec_seek (ms_to_frames position_ms l.sample_rate) ≡ pos frame
    → r.submit ≡ submitted
    → (n : ℕ) → r.read ≡ pos (suc n)
    → ((decode_round reconnect r s l) ≡ (s, l, again))
      × ((decode_round reconnect r (queue_seek position_ms s) l).0.state.status ≡ playing)
unfolding decode_round read_block drain_seeks apply_seek
seek_resumes_paused reconnect r position_ms s l pauses none_queued rx frame sought sent n got =
    ground arith
