-- ===== src/Ipc/Status.antt =====
-- crates/around-engine/src/ipc/handlers.rs: the answer to `Status`.
use around.Base.{ℕ, false, Option, none, some, List, [], ◌∷◌}
use around.Base.Text.{Text}
use around.Base.Table.{map_option}
use around.Engine.State.{Engine, StreamState}
use around.Engine.Api.{stream_state, sole_stream_id}
use around.Engine.Query.{
  stream_ids, stream_source_path, stream_codec_name, stream_duration_ms, stream_content_type,
  stream_seekable, stream_output_spec,
}
use around.Ipc.Types
use around.Ipc.Types.{
  ErrorCode, file_not_found, no_track, not_supported, invalid_position, codec_load_failed,
  TrackInfo, StreamStatus, IpcCommand, CodecSource, scanned, loaded, bytes, CodecDescriptor,
  Message, no_active_stream, no_seeking, beyond_track, write_failed, no_such_file, prepare_failed,
  load_failed, removed, IpcResponse, ok_response, error_response,
}

-- `unwrap_or`
abbrev pub unwrap_or {ℓ} : {A : Type ℓ} → A → Option A → A
unwrap_or d none = d
unwrap_or d (some a) = a

-- The text `unknown`.
abbrev pub unknown : Text
unknown = 117 ∷ 110 ∷ 107 ∷ 110 ∷ 111 ∷ 119 ∷ 110 ∷ []

unfoldable pub track_of : Engine → ℕ → Option TrackInfo
track_of e id =
    map_option
      (λ path. record {
        id = id;
        path = path;
        format = unwrap_or unknown (stream_codec_name e id);
        duration_ms = unwrap_or 0 (stream_duration_ms e id);
      })
      (stream_source_path e id)

-- The fields that `handle_status` sets for one stream.
unfoldable pub one_status : Engine → ℕ → StreamState → IpcResponse → IpcResponse
one_status e id st resp = record resp {
  state = some st.status;
  position_ms = some st.position_ms;
  stream_id = some id;
  device_lost = some st.device_lost;
  seekable = stream_seekable e id;
  content_type = stream_content_type e id;
  output_spec = stream_output_spec e id;
  track = track_of e id;
}

unfoldable pub status_entry : Engine → ℕ → StreamState → StreamStatus
status_entry e id st = record {
  stream_id = id;
  status = st.status;
  position_ms = st.position_ms;
  seekable = unwrap_or false (stream_seekable e id);
  device_lost = st.device_lost;
  output_spec = stream_output_spec e id;
  track = track_of e id;
  content_type = stream_content_type e id;
}

unfoldable pub status_entries : Engine → List ℕ → List StreamStatus
status_entries e [] = []
status_entries e (id ∷ ids) =
    let rest = status_entries e ids in
    elim (stream_state e id) [ none ↦ rest | some st ↦ status_entry e id st ∷ rest ]

abbrev pub add_sole : Engine → IpcResponse → Option ℕ → IpcResponse
add_sole e resp none = resp
add_sole e resp (some sole) = elim (stream_state e sole) [
  | none ↦ resp
  | some st ↦ one_status e sole st resp
]

unfoldable pub handle_status : Option ℕ → Engine → IpcResponse
handle_status (some sid) e = elim (stream_state e sid) [
  | none ↦ error_response no_track Types.stream_not_found
  | some st ↦ one_status e sid st ok_response
]
handle_status none e =
    add_sole e (record ok_response { streams = some (status_entries e (stream_ids e)) })
      (sole_stream_id e)
