-- ===== src/Engine/Api.antt =====
-- crates/around-engine/src/pipeline.rs: the operations of `Engine`, each with the engine afterwards.
-- `open_codec` asks codecs that are loaded at run time, so its result is an argument of `prepare`.
use around.Base.{
  ℕ, ◌+◌, ◌*◌, ◌/◌, ◌%◌, ◌^◌, Bool, true, false, not, ltb, leb, ◌==◌, if◌then◌else◌, Option, none,
  some, List, [], ◌∷◌, ◌++◌, Result, ok, err,
}
use around.Base.Text.{Text}
use around.Base.Table.{Table, lookup, insert, update, update_all, map_option}
use around.Core.Spec
use around.Core.Spec.{SampleSpec, f32}
use around.Engine.State.{
  Engine, ActiveStream, StreamState, PlaybackStatus, playing, paused, stopped, buffering,
  AroundError, decode_error, internal, new_state, is_ended, release,
}

-- What the engine asks of a `Source`.
pub record SourceInfo : Type 0 where
  pub seekable : Bool
  pub identifier : Text
  pub content_type : Option Text

-- The handles and the `StreamInfo` that `open_codec` returns, and the codec's name.
pub record Opened : Type 0 where
  pub stream_ptr : ℕ
  pub codec_ref : ℕ
  pub reader_ctx : ℕ
  pub codec_name : Text
  pub sample_rate : ℕ
  pub channels : ℕ
  pub total_frames : ℕ

pub record PreparedStream : Type 0 where
  pub stream_id : ℕ
  pub codec_name : Text
  pub duration_ms : Option ℕ
  pub seekable : Bool
  pub source_format : SampleSpec

abbrev pub u64_max : ℕ
u64_max = 0xffff_ffff_ffff_ffff

-- `u64::try_from(n).unwrap_or(u64::MAX)`
abbrev pub to_u64 : ℕ → ℕ
to_u64 n = if leb n u64_max then n else u64_max

-- `duration_ms` of `prepare`, computed in `u128`.
unfoldable pub duration_ms : ℕ → ℕ → Option ℕ
duration_ms total_frames sample_rate =
    if ltb 0 total_frames then some (to_u64 (total_frames * 1000 / sample_rate)) else none

-- The struct literal `active` of `prepare`.
unfoldable pub prepared_stream : SourceInfo → Opened → SampleSpec → ℕ → ActiveStream
unfolding new_state duration_ms
prepared_stream source o format id = record {
  id = id;
  state = record new_state { status = buffering; active = true; position_ms = 0 };
  cancelled = false;
  stream_ptr = some o.stream_ptr;
  codec_ref = some o.codec_ref;
  reader_ctx = some o.reader_ctx;
  sample_rate = o.sample_rate;
  channels = o.channels;
  total_frames = o.total_frames;
  source_path = source.identifier;
  content_type = source.content_type;
  codec_name = o.codec_name;
  duration_ms = duration_ms o.total_frames o.sample_rate;
  seekable = source.seekable;
  source_format = format;
  output_spec = none;
  seek_tx = true;
  seek_rx = true;
  seeks = [];
}

unfoldable pub prepare :
    SourceInfo → Result AroundError Opened → Engine → Result AroundError PreparedStream × Engine
unfolding prepared_stream
prepare source (err x) e = (err x, e)
prepare source (ok o) e =
    if o.sample_rate == 0
    then (err decode_error, release o.codec_ref o.stream_ptr o.reader_ctx e)
    else elim (Spec.new_interleaved o.sample_rate o.channels f32) [
      | err x ↦ (err decode_error, release o.codec_ref o.stream_ptr o.reader_ctx e)
      | ok format ↦ (
        ok (record {
          stream_id = e.next_stream_id;
          codec_name = o.codec_name;
          duration_ms = duration_ms o.total_frames o.sample_rate;
          seekable = source.seekable;
          source_format = format;
        }),
        record e {
          next_stream_id = (e.next_stream_id + 1) % 2 ^ 64;
          streams =
              insert e.next_stream_id (prepared_stream source o format e.next_stream_id) e.streams;
        },
      )
    ]

pub data SeekError : Type 0 where
  stream_not_found not_seekable stream_ended : SeekError

abbrev pub set_status : PlaybackStatus → ActiveStream → ActiveStream
set_status status s = record s { state = record s.state { status = status } }

-- `position_ms > dur` for a known duration.
abbrev pub past_end : ℕ → Option ℕ → Bool
past_end position_ms none = false
past_end position_ms (some dur) = ltb dur position_ms

-- `tx.send(position_ms); s.state.set_status(Buffering)`
abbrev pub queue_seek : ℕ → ActiveStream → ActiveStream
queue_seek position_ms s = set_status buffering (record s { seeks = s.seeks ++ (position_ms ∷ []) })

-- `tx.send` fails only once the receiver is dropped, which goes with the stream's removal.
unfoldable pub seek_found : Engine → ℕ → ℕ → ActiveStream → Result SeekError ℕ × Engine
seek_found e id position_ms s =
    if not s.seekable
    then (err not_seekable, e)
    else if past_end position_ms s.duration_ms
    then (err stream_ended, e)
    else if is_ended s.state.status
    then (err stream_ended, e)
    else if s.seek_tx
    then (ok position_ms, record e { streams = update id (queue_seek position_ms) e.streams })
    else (err stream_ended, e)

unfoldable pub seek_stream : ℕ → ℕ → Engine → Result SeekError ℕ × Engine
unfolding seek_found
seek_stream id position_ms e = elim (lookup id e.streams) [
  | none ↦ (err stream_not_found, e)
  | some s ↦ seek_found e id position_ms s
]

-- `s.cancel.cancel(); s.state.set_status(Stopped)`
abbrev pub cancel_stream : ActiveStream → ActiveStream
cancel_stream s = set_status stopped (record s { cancelled = true })

unfoldable pub stop_stream : Option ℕ → Engine → Engine
stop_stream (some id) e = record e { streams = update id cancel_stream e.streams }
stop_stream none e = record e { streams = update_all cancel_stream e.streams }

unfoldable pub pause_stream : ℕ → Engine → Engine
pause_stream id e = record e { streams = update id (set_status paused) e.streams }

unfoldable pub resume_stream : ℕ → Engine → Engine
resume_stream id e = record e { streams = update id (set_status playing) e.streams }

unfoldable pub stream_state : Engine → ℕ → Option StreamState
stream_state e id = map_option (λ s. s.state) (lookup id e.streams)

-- The ids of the active streams, which `sole_stream_id` collects.
unfoldable pub active_ids : Table ActiveStream → List ℕ
active_ids [] = []
active_ids ((k, s) ∷ m) = let rest = active_ids m in if s.state.active then s.id ∷ rest else rest

abbrev pub sole : List ℕ → Option ℕ
sole (id ∷ []) = some id
sole _ = none

unfoldable pub sole_stream_id : Engine → Option ℕ
unfolding active_ids
sole_stream_id e = sole (active_ids e.streams)

unfoldable pub shutdown : Engine → Engine
shutdown e = record e {
  shutdown = true;
  streams = update_all (λ s. record s { cancelled = true }) e.streams;
}

unfoldable pub notify_device_lost : Engine → Engine
unfolding stop_stream
notify_device_lost e =
    let e' = record e { device_lost = true } in
    if e.output_auto_reconnect then e' else stop_stream none e'

unfoldable pub set_stream_output_spec :
    ℕ → SampleSpec → Engine → Result AroundError (Unit {0}) × Engine
set_stream_output_spec id spec e = elim (lookup id e.streams) [
  | none ↦ (err internal, e)
  | some s ↦ (
    ok tt,
    record e { streams = update id (λ s. record s { output_spec = some spec }) e.streams },
  )
]
