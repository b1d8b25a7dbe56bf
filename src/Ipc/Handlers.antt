-- ===== src/Ipc/Handlers.antt =====
-- crates/around-engine/src/ipc/{handlers,mod}.rs: what the server does for each command.
use around.Base.{
  ℕ, not, if◌then◌else◌, Option, none, some, List, [], ◌∷◌, ◌++◌, Result, ok, err, ok_or,
}
use around.Base.Text.{Text}
use around.Base.Table.{map_option}
use around.Engine.State.{Engine}
use around.Engine.Api.{
  SeekError, stream_not_found, not_seekable, stream_ended, prepare, seek_stream, stop_stream,
  pause_stream, resume_stream, stream_state, sole_stream_id, shutdown,
}
use around.Ipc.Types
use around.Ipc.Types.{
  ErrorCode, file_not_found, no_track, not_supported, invalid_position, codec_load_failed,
  TrackInfo, StreamStatus, IpcCommand, CodecSource, scanned, loaded, bytes, CodecDescriptor,
  Message, no_active_stream, no_seeking, beyond_track, write_failed, no_such_file, prepare_failed,
  load_failed, removed, IpcResponse, ok_response, error_response,
}
use around.Ipc.Status.{unwrap_or, handle_status}
use around.Ipc.Codecs.{
  World, handle_cleanup, handle_list_codecs, handle_load_codec, handle_load_codec_bytes,
}

-- The engine, the streams whose loop has been spawned and the temporary files.
pub record Server : Type 0 where
  pub engine : Engine
  pub spawned : List ℕ
  pub temp_files : List Text

unfoldable pub resolve_stream_id : Engine → Option ℕ → Result IpcResponse ℕ
resolve_stream_id e (some id) = ok id
resolve_stream_id e none = ok_or (sole_stream_id e) (error_response no_track no_active_stream)

unfoldable pub handle_play : World → Text → Server → IpcResponse × Server
handle_play w path v =
    if not (w.exists path)
    then (error_response file_not_found (no_such_file path), v)
    else (let (prepared, engine) = prepare (w.source path) (w.open_codec path) v.engine in
        elim prepared [
          | err e ↦
              (error_response codec_load_failed (prepare_failed e), record v { engine = engine })
          | ok p ↦ (
            record ok_response {
              stream_id = some p.stream_id;
              track_id = some p.stream_id;
              track = some (record {
                id = p.stream_id;
                path = path;
                format = p.codec_name;
                duration_ms = unwrap_or 0 p.duration_ms;
              });
              seekable = some p.seekable;
            },
            record v { engine = engine; spawned = v.spawned ++ (p.stream_id ∷ []) },
          )
        ])

-- The response to `Pause` and `Resume`, once the engine has changed.
abbrev pub position_response : Engine → ℕ → IpcResponse
position_response e id = record ok_response {
  position_ms = map_option (λ st. st.position_ms) (stream_state e id);
}

unfoldable pub handle_pause : Option ℕ → Engine → IpcResponse × Engine
handle_pause stream_id e = elim (resolve_stream_id e stream_id) [
  | err resp ↦ (resp, e)
  | ok sid ↦ let e' = pause_stream sid e in (position_response e' sid, e')
]

unfoldable pub handle_resume : Option ℕ → Engine → IpcResponse × Engine
handle_resume stream_id e = elim (resolve_stream_id e stream_id) [
  | err resp ↦ (resp, e)
  | ok sid ↦ let e' = resume_stream sid e in (position_response e' sid, e')
]

unfoldable pub seek_error_response : SeekError → IpcResponse
seek_error_response stream_not_found = error_response no_track Types.stream_not_found
seek_error_response not_seekable = error_response not_supported no_seeking
seek_error_response stream_ended = error_response invalid_position beyond_track

unfoldable pub handle_seek : ℕ → Option ℕ → Engine → IpcResponse × Engine
handle_seek position_ms stream_id e = elim (resolve_stream_id e stream_id) [
  | err resp ↦ (resp, e)
  | ok sid ↦
      let (answer, e') = seek_stream sid position_ms e in
      elim answer [
        | ok pos ↦ (record ok_response { position_ms = some pos }, e')
        | err x ↦ (seek_error_response x, e')
      ]
]

unfoldable pub handle_stop : Option ℕ → Engine → IpcResponse × Engine
handle_stop stream_id e = (ok_response, stop_stream stream_id e)

unfoldable pub handle_shutdown : Engine → IpcResponse × Engine
handle_shutdown e = (ok_response, shutdown e)

-- The engine of the server changed by a handler.
abbrev pub on_engine : Server → IpcResponse × Engine → IpcResponse × Server
on_engine v (resp, engine) = (resp, record v { engine = engine })

abbrev pub on_files : Server → IpcResponse × List Text → IpcResponse × Server
on_files v (resp, files) = (resp, record v { temp_files = files })

unfoldable pub handle_command : World → IpcCommand → Server → IpcResponse × Server
handle_command w (IpcCommand.play path stream_id) v = handle_play w path v
handle_command w (IpcCommand.pause stream_id) v = on_engine v (handle_pause stream_id v.engine)
handle_command w (IpcCommand.resume stream_id) v = on_engine v (handle_resume stream_id v.engine)
handle_command w (IpcCommand.seek position_ms stream_id) v =
    on_engine v (handle_seek position_ms stream_id v.engine)
handle_command w (IpcCommand.stop stream_id) v = on_engine v (handle_stop stream_id v.engine)
handle_command w (IpcCommand.status stream_id) v = (handle_status stream_id v.engine, v)
handle_command w IpcCommand.list_codecs v = (handle_list_codecs w, v)
handle_command w (IpcCommand.load_codec path) v = (handle_load_codec w path, v)
handle_command w (IpcCommand.load_codec_bytes content) v =
    on_files v (handle_load_codec_bytes w content v.temp_files)
handle_command w IpcCommand.cleanup v = (handle_cleanup w, v)
handle_command w IpcCommand.shutdown v = on_engine v (handle_shutdown v.engine)
