-- ===== src/Engine/State.antt =====
-- crates/around-engine/src/pipeline.rs and crates/around-core/src/{state,error}.rs: what the engine keeps.
-- Raw pointers are numbers, and a `CancellationToken` is whether it has been cancelled. The values
-- that are shared through `Arc` and `Mutex` stand once, in the engine.
use around.Base.{
  ℕ, Bool, true, false, ◌||◌, ◌==◌, if◌then◌else◌, Option, none, some, List, [], ◌∷◌, ◌++◌,
}
use around.Base.Text.{Text}
use around.Base.Table.{Table}
use around.Core.Spec.{SampleSpec}

pub data PlaybackStatus : Type 0 where
  playing paused stopped buffering error : PlaybackStatus

-- `s as u8`, which `AtomicPlaybackStatus::store` writes.
unfoldable pub to_u8 : PlaybackStatus → ℕ
to_u8 playing = 0
to_u8 paused = 1
to_u8 stopped = 2
to_u8 buffering = 3
to_u8 error = 4

-- `AtomicPlaybackStatus::load`
unfoldable pub from_u8 : ℕ → PlaybackStatus
from_u8 n =
    if n == 0
    then playing
    else if n == 1
    then paused
    else if n == 2
    then stopped
    else if n == 3
    then buffering
    else if n == 4
    then error
    else stopped

abbrev pub is_paused : PlaybackStatus → Bool
is_paused paused = true
is_paused _ = false

-- `st == Stopped || st == Error`
abbrev pub is_ended : PlaybackStatus → Bool
is_ended stopped = true
is_ended error = true
is_ended _ = false

-- The variants, without the texts that they carry.
pub data AroundError : Type 0 where
  file_not_found unsupported_format decode_error source_incompatible no_track : AroundError
  codec_load_failed internal source_already_consumed invalid_position : AroundError
  codec_not_supported : AroundError

pub record StreamState : Type 0 where
  pub active : Bool
  pub position_ms : ℕ
  pub status : PlaybackStatus
  pub device_lost : Bool

-- `StreamState::new`
unfoldable pub new_state : StreamState
new_state = record { active = false; position_ms = 0; status = stopped; device_lost = false }

pub record ActiveStream : Type 0 where
  pub id : ℕ
  pub state : StreamState
  -- Whether `cancel` itself was cancelled; it is a child of the engine's `shutdown_token`.
  pub cancelled : Bool
  pub stream_ptr : Option ℕ
  pub codec_ref : Option ℕ
  pub reader_ctx : Option ℕ
  pub sample_rate : ℕ
  pub channels : ℕ
  pub total_frames : ℕ
  pub source_path : Text
  pub content_type : Option Text
  pub codec_name : Text
  pub duration_ms : Option ℕ
  pub seekable : Bool
  pub source_format : SampleSpec
  pub output_spec : Option SampleSpec
  -- `seek_tx` and `seek_rx` are the ends of one channel, whose messages are `seeks`.
  pub seek_tx : Bool
  pub seek_rx : Bool
  pub seeks : List ℕ

-- What is given back outside the engine, in order.
pub data Release : Type 0 where
  codec_drop : (codec stream_ptr : ℕ) → Release
  reader_drop : (reader_ctx : ℕ) → Release

pub record Engine : Type 0 where
  pub output_auto_reconnect : Bool
  pub device_lost : Bool
  pub streams : Table ActiveStream
  -- `shutdown_token`
  pub shutdown : Bool
  -- `NEXT_STREAM_ID`
  pub next_stream_id : ℕ
  pub releases : List Release

-- `Engine::new`
unfoldable pub new : Bool → Engine
new auto_reconnect = record {
  output_auto_reconnect = auto_reconnect;
  device_lost = false;
  streams = [];
  shutdown = false;
  next_stream_id = 1;
  releases = [];
}

-- A child token is cancelled with its parent.
abbrev pub is_cancelled : Engine → ActiveStream → Bool
is_cancelled e s = s.cancelled || e.shutdown

-- `codec_ref.drop(stream_ptr); drop_reader_context(reader_ctx)`
-- `drop` of an `ActiveStream`: what it still holds is given back, the codec's stream before the reader.
abbrev pub drop_codec : Option ℕ → Option ℕ → List Release
drop_codec none codec = []
drop_codec (some stream_ptr) none = []
drop_codec (some stream_ptr) (some codec) = codec_drop codec stream_ptr ∷ []

abbrev pub drop_reader : Option ℕ → List Release
drop_reader none = []
drop_reader (some reader_ctx) = reader_drop reader_ctx ∷ []

unfoldable pub drop_stream : Option ActiveStream → List Release
drop_stream none = []
drop_stream (some s) = drop_codec s.stream_ptr s.codec_ref ++ drop_reader s.reader_ctx

abbrev pub release : ℕ → ℕ → ℕ → Engine → Engine
release codec stream_ptr reader_ctx e = record e {
  releases = e.releases ++ (codec_drop codec stream_ptr ∷ reader_drop reader_ctx ∷ []);
}
