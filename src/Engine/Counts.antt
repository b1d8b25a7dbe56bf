-- ===== src/Engine/Counts.antt =====
-- crates/around-engine/src/pipeline.rs: bad reads in a row, counted beside the decode loop.
use around.Base.{
  max, ℕ, ◌+◌, ◌/◌, Bool, true, false, ◌≡◌, arith, some, if◌then◌else◌, ◌==◌, inl, inr, Bool-cases,
  subst, [],
}
use around.Base.Int.{ℤ, pos, negsuc}
use around.Engine.State.{ActiveStream, decode_error, is_paused}
use around.Engine.Loop.{
  Loop, Round, Verdict, Submitted, submitted, lost, failed, again, submit_block, read_block,
  decode_round, drain_seeks, lost_round, set_device_lost,
}
use around.Engine.Rounds.{InLoop, drain-InLoop}

-- A block that is written ends the row, a bad read makes it longer, and the rest leaves it as it is.
abbrev pub count_block : Submitted → ℕ → ℕ
count_block submitted count = 0
count_block lost count = count
count_block failed count = count

abbrev pub count_read : ℤ → Submitted → ℕ → ℕ
count_read (pos n) submit count = if n == 0 then count else count_block submit count
count_read (negsuc k) submit count = count + 1

-- Nothing is read while the stream is paused.
unfoldable pub count_round : Bool → Round → ℕ → ℕ
count_round paused r count = if paused then count else count_read r.read r.submit count

-- The loop's counter, where the loop goes on or has failed to decode.
pub record Counts (count : ℕ) (k : Loop) (v : Verdict) : Type 0 where
  pub going_on : v ≡ again → k.consecutive_errors ≡ count
  pub failing : k.failure ≡ some decode_error → k.consecutive_errors ≡ count

submit_block-Counts :
    (reconnect : Bool) (r : Round) (frames : ℕ) (s : ActiveStream) (l : Loop)
    → InLoop s l
    → let (t, k, v) = submit_block reconnect r frames s l in
      Counts (count_block r.submit l.consecutive_errors) k v
unfolding submit_block
submit_block-Counts reconnect r frames s l h = ground arith

read_block-Counts :
    (reconnect : Bool) (r : Round) (n : ℤ) (s : ActiveStream) (l : Loop)
    → InLoop s l
    → let (t, k, v) = read_block reconnect r n s l in
      Counts (count_read n r.submit l.consecutive_errors) k v
unfolding read_block
read_block-Counts reconnect r (pos n) s l h = elim (Bool-cases (n == 0)) [
  | inl ended ↦ rw ended (ground arith)
  | inr more ↦ rw more (submit_block-Counts reconnect r (n / max l.channels 1) s l h)
]
read_block-Counts reconnect r (negsuc k) s l h = ground arith

pub decode_round-Counts :
    (reconnect : Bool) (r : Round) (s : ActiveStream) (l : Loop)
    → InLoop s l
    → let (t, k, v) = decode_round reconnect r s l in
      Counts (count_round (is_paused s.state.status) r l.consecutive_errors) k v
unfolding decode_round count_round
decode_round-Counts reconnect r s l h = elim (Bool-cases (is_paused s.state.status)) [
  | inl pauses ↦ rw pauses (ground arith)
  | inr runs ↦ rw runs (elim (Bool-cases l.has_seek_rx) [
    | inl connected ↦
        let drained = drain_seeks r.codec_seek s.seeks (record s { seeks = [] }) l in
        let (h', same) =
          drain-InLoop r.codec_seek s.seeks (record s { seeks = [] }) l (ground arith) in
        simp connected (
          subst
            (λ c.
              Counts (count_read r.read r.submit c)
                (read_block reconnect r r.read drained.0 drained.1).1
                (read_block reconnect r r.read drained.0 drained.1).2)
            same (read_block-Counts reconnect r r.read drained.0 drained.1 h'))
    | inr alone ↦ simp alone (read_block-Counts reconnect r r.read s l h)
  ])
]

pub lost_round-Counts :
    (reconnect : Bool) (r : Round) (s : ActiveStream) (l : Loop)
    → InLoop s l
    → let (t, k, v) = lost_round reconnect r s l in
      Counts (count_round (is_paused s.state.status) r l.consecutive_errors) k v
unfolding lost_round
lost_round-Counts reconnect r s l h =
    ground
      (arith, decode_round-Counts reconnect r (set_device_lost false (set_device_lost true s)) l)
