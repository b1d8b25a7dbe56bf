-- ===== src/Engine/Loop.antt =====
-- crates/around-engine/src/pipeline.rs: the decode loop of `run_stream_with_session`.
-- What the codec and the output answer in a round is a `Round`. The logging is left out.
use around.Base.{
  ℕ, ◌+◌, ◌*◌, ◌/◌, ◌%◌, ◌^◌, max, Bool, true, false, leb, ◌==◌, if◌then◌else◌, Option, none, some,
  List, [], ◌∷◌, ◌++◌, Result, ok, err,
}
use around.Base.Int.{ℤ, pos, negsuc}
use around.Base.Table.{lookup, update, remove}
use around.Engine.State.{
  Engine, ActiveStream, StreamState, PlaybackStatus, playing, stopped, buffering, error,
  AroundError, decode_error, internal, is_paused, is_cancelled, release, drop_stream,
}
use around.Engine.Api.{to_u64, set_status}

-- The local variables of the loop.
pub record Loop : Type 0 where
  pub id : ℕ
  pub stream_ptr : ℕ
  pub codec_ref : ℕ
  pub reader_ctx : ℕ
  pub has_seek_rx : Bool
  pub sample_rate : ℕ
  pub channels : ℕ
  pub total_frames_decoded : ℕ
  pub consecutive_errors : ℕ
  pub failure : Option AroundError

-- `Option::take` on the three resources, one after the other, and on `seek_rx`.
unfoldable pub take_reader : ℕ → ActiveStream → ℕ → ℕ → Result AroundError Loop × ActiveStream
take_reader id s stream_ptr codec_ref = elim s.reader_ctx [
  | none ↦ (err internal, s)
  | some reader_ctx ↦ (
    ok (record {
      id = id;
      stream_ptr = stream_ptr;
      codec_ref = codec_ref;
      reader_ctx = reader_ctx;
      has_seek_rx = s.seek_rx;
      sample_rate = s.sample_rate;
      channels = s.channels;
      total_frames_decoded = 0;
      consecutive_errors = 0;
      failure = none;
    }),
    record s { reader_ctx = none; seek_rx = false },
  )
]

unfoldable pub take_codec : ℕ → ActiveStream → ℕ → Result AroundError Loop × ActiveStream
unfolding take_reader
take_codec id s stream_ptr = elim s.codec_ref [
  | none ↦ (err internal, s)
  | some codec_ref ↦ take_reader id (record s { codec_ref = none }) stream_ptr codec_ref
]

unfoldable pub take_resources : ℕ → ActiveStream → Result AroundError Loop × ActiveStream
unfolding take_codec
take_resources id s = elim s.stream_ptr [
  | none ↦ (err internal, s)
  | some stream_ptr ↦ take_codec id (record s { stream_ptr = none }) stream_ptr
]

-- `take_stream_resources`, and the same block of `run_stream_with_session`.
unfoldable pub take_stream_resources : ℕ → Engine → Result AroundError Loop × Engine
unfolding take_resources
take_stream_resources id e = elim (lookup id e.streams) [
  | none ↦ (err internal, e)
  | some s ↦
      let (taken, s') = take_resources id s in
      (taken, record e { streams = update id (λ _. s') e.streams })
]

-- What `submit_workspace` returns: done, `OutputError::Lost` or another error.
pub data Submitted : Type 0 where
  submitted lost failed : Submitted

-- The answers of the outside world in one round of the loop.
pub record Round : Type 0 where
  -- whether `rebind` succeeds after a lost device
  pub rebind_device : Bool
  -- the codec's `seek`, from a frame to an `i64`
  pub codec_seek : ℕ → ℤ
  -- the codec's `read`, an `i32`
  pub read : ℤ
  pub submit : Submitted
  -- whether `rebind` succeeds after a lost output
  pub rebind_output : Bool

pub data Verdict : Type 0 where
  again leave : Verdict

-- `total * 1000 / rate` in `u64`.
abbrev pub frames_to_ms : ℕ → ℕ → ℕ
frames_to_ms frames rate = frames * 1000 % 2 ^ 64 / rate

-- `position_ms * rate / 1000`, computed in `u128` and cut off to `u64`.
abbrev pub ms_to_frames : ℕ → ℕ → ℕ
ms_to_frames position_ms rate = to_u64 (position_ms * rate / 1000)

abbrev pub set_position : ℕ → ActiveStream → ActiveStream
set_position position s = record s { state = record s.state { position_ms = position } }

-- One request of the seek channel: `new_pos if new_pos >= 0`, or a warning.
unfoldable pub apply_seek : ℤ → ActiveStream → Loop → ActiveStream × Loop
apply_seek (pos frame) s l = (
  set_status playing (set_position (frames_to_ms frame l.sample_rate) s),
  record l { total_frames_decoded = frame },
)
apply_seek (negsuc k) s l = (s, l)

-- `while let Ok(position_ms) = rx.try_recv()`
unfoldable pub drain_seeks : (ℕ → ℤ) → List ℕ → ActiveStream → Loop → ActiveStream × Loop
drain_seeks codec_seek [] s l = (s, l)
drain_seeks codec_seek (position_ms ∷ seeks) s l =
    let (s', l') = apply_seek (codec_seek (ms_to_frames position_ms l.sample_rate)) s l in
    drain_seeks codec_seek seeks s' l'

-- A block of `frames` frames has been decoded.
unfoldable pub submit_block : Bool → Round → ℕ → ActiveStream → Loop → ActiveStream × Loop × Verdict
submit_block reconnect r frames s l = elim r.submit [
  | submitted ↦
      let total : ℕ = (l.total_frames_decoded + frames) % 2 ^ 64 in
      (
        set_position (frames_to_ms total l.sample_rate) s,
        record l { total_frames_decoded = total; consecutive_errors = 0 },
        again,
      )
  | lost ↦
      if reconnect
      then (if r.rebind_output then (set_status playing (set_status buffering s), l, again) else (
        set_status error (set_status buffering s),
        record l { failure = some internal },
        leave,
      ))
      else (set_status error s, record l { failure = some internal }, leave)
  | failed ↦ (set_status error s, record l { failure = some internal }, leave)
]

unfoldable pub read_block : Bool → Round → ℤ → ActiveStream → Loop → ActiveStream × Loop × Verdict
unfolding submit_block
read_block reconnect r (pos n) s l =
    if n == 0 then (s, l, leave) else submit_block reconnect r (n / max l.channels 1) s l
read_block reconnect r (negsuc k) s l =
    if leb 3 (l.consecutive_errors + 1)
    then (
      set_status error s,
      record l { consecutive_errors = l.consecutive_errors + 1; failure = some decode_error },
      leave,
    )
    else (s, record l { consecutive_errors = l.consecutive_errors + 1 }, again)

-- From the test for `Paused` to the end of the loop's body.
unfoldable pub decode_round : Bool → Round → ActiveStream → Loop → ActiveStream × Loop × Verdict
decode_round reconnect r s l =
    if is_paused s.state.status
    then (s, l, again)
    else if l.has_seek_rx
    then (let (s', l') = drain_seeks r.codec_seek s.seeks (record s { seeks = [] }) l in
        read_block reconnect r r.read s' l')
    else read_block reconnect r r.read s l

abbrev pub set_device_lost : Bool → ActiveStream → ActiveStream
set_device_lost b s = record s { state = record s.state { device_lost = b } }

-- After `self.device_lost.swap(false)` has answered true.
unfoldable pub lost_round : Bool → Round → ActiveStream → Loop → ActiveStream × Loop × Verdict
lost_round reconnect r s l =
    if reconnect
    then (if r.rebind_device
        then decode_round reconnect r (set_device_lost false (set_device_lost true s)) l
        else (
          set_status error (set_device_lost true s),
          record l { failure = some internal },
          leave,
        ))
    else (set_status error (set_device_lost true s), l, leave)

-- The body of `loop`. The stream stands in the map as long as its loop runs.
unfoldable pub round : Round → Engine → Loop → Engine × Loop × Verdict
round r e l = elim (lookup l.id e.streams) [
  | none ↦ (e, l, leave)
  | some s ↦
      if is_cancelled e s
      then (e, l, leave)
      else (let (s', l', verdict) =
            if e.device_lost
            then lost_round e.output_auto_reconnect r s l
            else decode_round e.output_auto_reconnect r s l in
          (
            record e { device_lost = false; streams = update l.id (λ _. s') e.streams },
            l',
            verdict,
          ))
]

-- The status and the result after the loop.
abbrev pub final_status : Option AroundError → PlaybackStatus → PlaybackStatus
final_status none status = stopped
final_status (some x) status = status

abbrev pub result_of : Option AroundError → Result AroundError (Unit {0})
result_of none = ok tt
result_of (some x) = err x

-- From `playback complete` to the end: what holders of the `StreamState` see, and the engine.
unfoldable pub final_state : Loop → StreamState → StreamState
final_state l st = record st { status = final_status l.failure st.status; active = false }

-- The loop gives its resources back, and the entry of the map is dropped with what it still holds.
abbrev pub remove_stream : ℕ → Engine → Engine
remove_stream id e = record e {
  streams = remove id e.streams;
  releases = e.releases ++ drop_stream (lookup id e.streams);
}

unfoldable pub finish : Engine → Loop → Result AroundError (Unit {0}) × Engine
finish e l =
    (result_of l.failure, remove_stream l.id (release l.codec_ref l.stream_ptr l.reader_ctx e))
