-- ===== src/Engine/Rounds.antt =====
-- crates/around-engine/src/pipeline.rs: one round of the decode loop.
use around.Base.{
  max, ◌∙◌, ℕ, ◌+◌, ◌/◌, ◌≤◌, ◌<◌, Bool, true, false, ◌≡◌, refl, arith, none, some, List, [], ◌∷◌,
  ◌==◌, if◌then◌else◌, inl, inr, Bool-cases,
}
use around.Base.Int.{ℤ, pos, negsuc}
use around.Base.Table.{lookup, update}
use around.Engine.State.{
  Engine, ActiveStream, AroundError, decode_error, paused, error, is_paused, is_cancelled,
}
use around.Engine.Loop.{
  Loop, Round, Verdict, again, leave, apply_seek, drain_seeks, decode_round, lost_round, read_block,
  submit_block, round, ms_to_frames, frames_to_ms, set_device_lost,
}

module _ (r : Round) (e : Engine) (l : Loop) (s : ActiveStream)
    (found : lookup l.id e.streams ≡ some s) where
  -- What `round` does, by whether the stream is cancelled and the device is lost.
  pub round_cancelled : is_cancelled e s ≡ true → round r e l ≡ (e, l, leave)
  unfolding round
  round_cancelled cancelled = rw (found, round) (rw cancelled refl)

  abbrev stages : ActiveStream × Loop × Verdict
  stages =
      if e.device_lost
      then lost_round e.output_auto_reconnect r s l
      else decode_round e.output_auto_reconnect r s l

  pub round_running :
      is_cancelled e s ≡ false
      → round r e l ≡ (
        record e { device_lost = false; streams = update l.id (λ _. stages.0) e.streams },
        stages.1,
        stages.2,
      )
  unfolding round
  round_running running = rw (found, round) (rw running refl)

-- A paused stream's round reads nothing: the loop goes on with everything as it was.
pub paused_round :
    (reconnect : Bool) (r : Round) (s : ActiveStream) (l : Loop)
    → s.state.status ≡ paused
    → decode_round reconnect r s l ≡ (s, l, again)
unfolding decode_round
paused_round reconnect r s l pauses = ground arith

-- 1 for a negative answer of the codec's `read`.
abbrev pub bad_read : ℤ → ℕ
bad_read (pos n) = 0
bad_read (negsuc n) = 1

-- What a round may do to the error counter and the failure, and the position that it leaves.
pub record Advances (n : ℤ) (l : Loop) (t : ActiveStream) (k : Loop) (v : Verdict) : Type 0 where
  pub stays_low : v ≡ again → k.consecutive_errors < 3
  pub one_more : k.consecutive_errors ≤ l.consecutive_errors + bad_read n
  pub third_error : k.failure ≡ some decode_error → k.consecutive_errors ≡ 3
  pub no_failure : v ≡ again → k.failure ≡ none
  pub failed_status : (x : AroundError) → k.failure ≡ some x → t.state.status ≡ error
  pub positioned : t.state.position_ms ≡ frames_to_ms k.total_frames_decoded k.sample_rate

-- What holds of a loop before each round.
pub record InLoop (s : ActiveStream) (l : Loop) : Type 0 where
  pub fine : l.failure ≡ none
  pub low : l.consecutive_errors < 3
  pub positioned : s.state.position_ms ≡ frames_to_ms l.total_frames_decoded l.sample_rate

submit_block-Advances :
    (reconnect : Bool) (r : Round) (frames : ℕ) (s : ActiveStream) (l : Loop)
    → InLoop s l
    → let (t, k, v) = submit_block reconnect r frames s l in Advances (pos 0) l t k v
unfolding submit_block
submit_block-Advances reconnect r frames s l h = ground arith

read_block-Advances :
    (reconnect : Bool) (r : Round) (n : ℤ) (s : ActiveStream) (l : Loop)
    → InLoop s l
    → let (t, k, v) = read_block reconnect r n s l in Advances n l t k v
unfolding read_block
read_block-Advances reconnect r (pos n) s l h = elim (Bool-cases (n == 0)) [
  | inl ended ↦ rw ended (ground arith)
  | inr more ↦
      rw more (ground (arith, submit_block-Advances reconnect r (n / max l.channels 1) s l h))
]
read_block-Advances reconnect r (negsuc n) s l h = ground arith

apply_seek-InLoop :
    (p : ℤ) (s : ActiveStream) (l : Loop)
    → InLoop s l
    → InLoop (apply_seek p s l).0 (apply_seek p s l).1
      × ((apply_seek p s l).1.consecutive_errors ≡ l.consecutive_errors)
unfolding apply_seek
apply_seek-InLoop (pos n) s l h = ground arith
apply_seek-InLoop (negsuc n) s l h = ground arith

pub drain-InLoop :
    (codec_seek : ℕ → ℤ) (seeks : List ℕ) (s : ActiveStream) (l : Loop)
    → InLoop s l
    → InLoop (drain_seeks codec_seek seeks s l).0 (drain_seeks codec_seek seeks s l).1
      × ((drain_seeks codec_seek seeks s l).1.consecutive_errors ≡ l.consecutive_errors)
unfolding drain_seeks
drain-InLoop codec_seek [] s l h = (h, refl)
drain-InLoop codec_seek (p ∷ seeks) s l h =
    let reply = codec_seek (ms_to_frames p l.sample_rate) in
    let (h', same) = apply_seek-InLoop reply s l h in
    let (h'', same') =
      drain-InLoop codec_seek seeks (apply_seek reply s l).0 (apply_seek reply s l).1 h' in
    (h'', same' ∙ same)

same_errors :
    {n : ℤ} {l m : Loop} {t : ActiveStream} {k : Loop} {v : Verdict}
    → Advances n m t k v
    → m.consecutive_errors ≡ l.consecutive_errors
    → Advances n l t k v
same_errors a same = record {
  stays_low = a.stays_low;
  one_more = omega (arith, a.one_more);
  third_error = a.third_error;
  no_failure = a.no_failure;
  failed_status = a.failed_status;
  positioned = a.positioned;
}

-- From a loop without failure, with fewer than three bad reads in a row and a position that fits its
-- frames, a round counts at most one bad read more, fails to decode only at the third in a row, goes on
-- only without a failure, shows a failure as the status `Error`, and keeps the position in step.
pub decode_round-Advances :
    (reconnect : Bool) (r : Round) (s : ActiveStream) (l : Loop)
    → InLoop s l
    → let (t, k, v) = decode_round reconnect r s l in Advances r.read l t k v
unfolding decode_round
decode_round-Advances reconnect r s l h = elim (Bool-cases (is_paused s.state.status)) [
  | inl pauses ↦ rw pauses (ground arith)
  | inr runs ↦ rw runs (elim (Bool-cases l.has_seek_rx) [
    | inl connected ↦
        let drained = drain_seeks r.codec_seek s.seeks (record s { seeks = [] }) l in
        let (h', same) =
          drain-InLoop r.codec_seek s.seeks (record s { seeks = [] }) l (ground arith) in
        simp connected
          (same_errors (read_block-Advances reconnect r r.read drained.0 drained.1 h') same)
    | inr alone ↦ simp alone (read_block-Advances reconnect r r.read s l h)
  ])
]

pub lost_round-Advances :
    (reconnect : Bool) (r : Round) (s : ActiveStream) (l : Loop)
    → InLoop s l
    → let (t, k, v) = lost_round reconnect r s l in Advances r.read l t k v
unfolding lost_round
lost_round-Advances reconnect r s l h =
    ground
      (arith, decode_round-Advances reconnect r (set_device_lost false (set_device_lost true s)) l)
