-- ===== src/Ipc/Types.antt =====
-- crates/around-engine/src/ipc/types.rs: commands and responses. The encodings by serde are left out.
use around.Base.{ℕ, Bool, List, Option, none, some}
use around.Base.Text.{Text}
use around.Core.Spec.{SampleSpec}
use around.Engine.State.{PlaybackStatus, AroundError}

pub data ResponseStatus : Type 0 where
  ok error : ResponseStatus

pub data ErrorCode : Type 0 where
  file_not_found no_track not_supported invalid_position codec_load_failed : ErrorCode

pub record TrackInfo : Type 0 where
  pub id : ℕ
  pub path : Text
  pub format : Text
  pub duration_ms : ℕ

pub record StreamStatus : Type 0 where
  pub stream_id : ℕ
  pub status : PlaybackStatus
  pub position_ms : ℕ
  pub seekable : Bool
  pub device_lost : Bool
  pub output_spec : Option SampleSpec
  pub track : Option TrackInfo
  pub content_type : Option Text

pub data IpcCommand : Type 0 where
  play : (path : Text) (stream_id : Option ℕ) → IpcCommand
  pause : (stream_id : Option ℕ) → IpcCommand
  resume : (stream_id : Option ℕ) → IpcCommand
  seek : (position_ms : ℕ) (stream_id : Option ℕ) → IpcCommand
  stop : (stream_id : Option ℕ) → IpcCommand
  status : (stream_id : Option ℕ) → IpcCommand
  list_codecs : IpcCommand
  load_codec : (path : Text) → IpcCommand
  load_codec_bytes : (content : List ℕ) → IpcCommand
  cleanup : IpcCommand
  shutdown : IpcCommand

-- The field `source`, one of three texts.
pub data CodecSource : Type 0 where
  scanned loaded bytes : CodecSource

-- `formats` is always empty.
pub record CodecDescriptor : Type 0 where
  pub name : Text
  pub source : CodecSource
  pub path : Option Text

-- The texts of `message`, by where they stand in the handlers.
pub data Message : Type 0 where
  no_active_stream stream_not_found no_seeking beyond_track write_failed : Message
  no_such_file : Text → Message
  prepare_failed : AroundError → Message
  load_failed : Message
  removed : ℕ → Message

pub record IpcResponse : Type 0 where
  pub status : ResponseStatus
  pub state : Option PlaybackStatus
  pub position_ms : Option ℕ
  pub code : Option ErrorCode
  pub message : Option Message
  pub track_id : Option ℕ
  pub track : Option TrackInfo
  pub codecs : Option (List CodecDescriptor)
  pub device_lost : Option Bool
  pub removed_files : Option (List Text)
  pub stream_id : Option ℕ
  pub content_type : Option Text
  pub seekable : Option Bool
  pub output_spec : Option SampleSpec
  pub streams : Option (List StreamStatus)

-- `IpcResponse::ok`
abbrev pub ok_response : IpcResponse
ok_response = record {
  status = ok;
  state = none;
  position_ms = none;
  code = none;
  message = none;
  track_id = none;
  track = none;
  codecs = none;
  device_lost = none;
  removed_files = none;
  stream_id = none;
  content_type = none;
  seekable = none;
  output_spec = none;
  streams = none;
}

-- `IpcResponse::error`
abbrev pub error_response : ErrorCode → Message → IpcResponse
error_response code message = record ok_response {
  status = error;
  code = some code;
  message = some message;
}
