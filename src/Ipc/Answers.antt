-- ===== src/Ipc/Answers.antt =====
-- crates/around-engine/src/ipc/{handlers,mod}.rs: what every answer to a command tells.
use around.Base.{
  ℕ, ◌≡◌, ap, refl, arith, inl, inr, Bool-cases, Option-cases, Option, none, some, List, Result,
  Result-cases, ok, err,
}
use around.Engine.State.{Engine, AroundError}
use around.Engine.Api.{
  SourceInfo, Opened, prepare, seek_stream, sole_stream_id, stream_state, SeekError,
  stream_not_found, not_seekable, stream_ended,
}
use around.Engine.Prepare.{prepare_refused}
use around.Base.Text.{Text}
use around.Engine.Seek.{seek_stream_refused}
use around.Ipc.Types
use around.Ipc.Types.{IpcCommand, IpcResponse, ErrorCode, Message, error_response}
use around.Ipc.Status.{handle_status, one_status, add_sole}
use around.Ipc.Codecs.{
  World, handle_cleanup, handle_list_codecs, handle_load_codec, handle_load_codec_bytes,
}
use around.Ipc.Handlers.{
  Server, on_engine, resolve_stream_id, handle_play, handle_pause, handle_resume,
  seek_error_response, handle_seek, handle_stop, handle_shutdown, handle_command,
}

-- An answer is a success without a code, or an error with a code, a message and nothing else.
pub data IsAnswer (resp : IpcResponse) : Type 0 where
  success : resp.status ≡ Types.ok → resp.code ≡ none → IsAnswer resp
  failure :
      (code : ErrorCode) (message : Message) → resp ≡ error_response code message → IsAnswer resp

refused_streams :
    (source : SourceInfo) (opened : Result AroundError Opened) (e : Engine) (x : AroundError)
    → (prepare source opened e).0 ≡ err x
    → (prepare source opened e).1.streams ≡ e.streams
refused_streams source (err y) e x h = unfold prepare in refl
refused_streams source (ok o) e x h = (prepare_refused source o e x h).1

-- What a handler leaves: an answer, and after an error the streams as they were.
pub record Handled (v : Server) (result : IpcResponse × Server) : Type 0 where
  pub answer : IsAnswer result.0
  pub untouched : result.0.status ≡ Types.error → result.1.engine.streams ≡ v.engine.streams

resolve-IsAnswer :
    (e : Engine) (id : Option ℕ) (resp : IpcResponse)
    → resolve_stream_id e id ≡ err resp
    → IsAnswer resp
unfolding resolve_stream_id
resolve-IsAnswer e (some id) resp h = cc
resolve-IsAnswer e none resp h = elim (Option-cases (sole_stream_id e)) [
  | inl missing ↦ failure Types.no_track Types.no_active_stream (ground arith)
  | inr (id, found) ↦ ground arith
]

handle_play-Handled : (w : World) (path : Text) (v : Server) → Handled v (handle_play w path v)
unfolding handle_play
handle_play-Handled w path v = elim (Bool-cases (w.exists path)) [
  | inr missing ↦ rw missing (record { answer = failure _ _ refl; untouched = λ h. refl })
  | inl there ↦
      rw there (elim (Result-cases (prepare (w.source path) (w.open_codec path) v.engine).0) [
        | inl (p, prepared) ↦
            rw prepared (record { answer = success refl refl; untouched = ground arith })
        | inr (x, refused) ↦ rw refused (record {
          answer = failure _ _ refl;
          untouched = λ h. refused_streams (w.source path) (w.open_codec path) v.engine x refused;
        })
      ])
]

resolved :
    {v : Server} (id : Option ℕ) (run : ℕ → IpcResponse × Engine)
    → ((sid : ℕ) → Handled v (on_engine v (run sid)))
    → Handled v (
        on_engine v
          (elim (resolve_stream_id v.engine id) [ err resp ↦ (resp, v.engine) | ok sid ↦ run sid ]))
resolved {v} id run h = elim (Result-cases (resolve_stream_id v.engine id)) [
  | inl (sid, found) ↦ rw found (h sid)
  | inr (resp, refused) ↦
      rw refused
        (record { answer = resolve-IsAnswer v.engine id resp refused; untouched = λ e. refl })
]

handle_seek-Handled :
    (p : ℕ) (id : Option ℕ) (v : Server) → Handled v (on_engine v (handle_seek p id v.engine))
unfolding handle_seek seek_error_response
handle_seek-Handled p id v = resolved id _ (λ sid.
    elim (Result-cases (seek_stream sid p v.engine).0) [
      | inl (pos, accepted) ↦
          rw accepted (record { answer = success refl refl; untouched = ground arith })
      | inr (stream_not_found, refused) ↦ rw refused (refused_seek sid _ refused)
      | inr (not_seekable, refused) ↦ rw refused (refused_seek sid _ refused)
      | inr (stream_ended, refused) ↦ rw refused (refused_seek sid _ refused)
    ])
  where
    refused_seek :
        (sid : ℕ) {code : ErrorCode} {message : Message} (x : SeekError)
        → (seek_stream sid p v.engine).0 ≡ err x
        → Handled v
            (error_response code message, record v { engine = (seek_stream sid p v.engine).1 })
    refused_seek sid x refused = record {
      answer = failure _ _ refl;
      untouched = λ h. ap (λ e. e.streams) (seek_stream_refused sid p v.engine x refused);
    }

add_sole-IsAnswer :
    (e : Engine) (resp : IpcResponse)
    → resp.status ≡ Types.ok
    → resp.code ≡ none
    → (sole : Option ℕ) → IsAnswer (add_sole e resp sole)
unfolding one_status
add_sole-IsAnswer e resp fine no_code none = success fine no_code
add_sole-IsAnswer e resp fine no_code (some sole) = elim (Option-cases (stream_state e sole)) [
  | inl gone ↦ rw (gone, add_sole) (success fine no_code)
  | inr (st, there) ↦ rw (there, add_sole) (success fine no_code)
]

handle_status-IsAnswer : (id : Option ℕ) (e : Engine) → IsAnswer (handle_status id e)
unfolding handle_status one_status
handle_status-IsAnswer none e = add_sole-IsAnswer e _ refl refl (sole_stream_id e)
handle_status-IsAnswer (some id) e = elim (Option-cases (stream_state e id)) [
  | inl missing ↦ rw (missing, handle_status) (failure _ _ refl)
  | inr (st, found) ↦ rw (found, handle_status) (success refl refl)
]

handle_load_codec-IsAnswer : (w : World) (path : Text) → IsAnswer (handle_load_codec w path)
unfolding handle_load_codec
handle_load_codec-IsAnswer w path = elim (Bool-cases (w.load path)) [
  | inl done ↦ rw done (success refl refl)
  | inr failed ↦ rw failed (failure _ _ refl)
]

handle_load_codec_bytes-IsAnswer :
    (w : World) (content : List ℕ) (files : List Text)
    → IsAnswer (handle_load_codec_bytes w content files).0
unfolding handle_load_codec_bytes
handle_load_codec_bytes-IsAnswer w content files = elim (Bool-cases (w.can_write content)) [
  | inr full ↦ rw full (failure _ _ refl)
  | inl written ↦ rw written (elim (Bool-cases (w.load (w.file_stem (w.tmp_path content)))) [
    | inl done ↦ rw done (success refl refl)
    | inr failed ↦ rw failed (failure _ _ refl)
  ])
]

-- Every command is answered by a success without a code or by an error with a code and a message, and
-- after an error the streams are as they were.
pub handle_command-Handled :
    (w : World) (c : IpcCommand) (v : Server) → Handled v (handle_command w c v)
unfolding handle_command handle_pause handle_resume handle_stop handle_shutdown
handle_command-Handled w (IpcCommand.play path stream_id) v = handle_play-Handled w path v
handle_command-Handled w (IpcCommand.pause id) v =
    resolved id _ (λ sid. record { answer = success refl refl; untouched = ground arith })
handle_command-Handled w (IpcCommand.resume id) v =
    resolved id _ (λ sid. record { answer = success refl refl; untouched = ground arith })
handle_command-Handled w (IpcCommand.seek p id) v = handle_seek-Handled p id v
handle_command-Handled w (IpcCommand.stop id) v = record {
  answer = success refl refl;
  untouched = ground arith;
}
handle_command-Handled w (IpcCommand.status id) v = record {
  answer = handle_status-IsAnswer id v.engine;
  untouched = λ h. refl;
}
handle_command-Handled w IpcCommand.list_codecs v = record {
  answer = unfold handle_list_codecs in success refl refl;
  untouched = λ h. refl;
}
handle_command-Handled w (IpcCommand.load_codec path) v = record {
  answer = handle_load_codec-IsAnswer w path;
  untouched = λ h. refl;
}
handle_command-Handled w (IpcCommand.load_codec_bytes content) v = record {
  answer = handle_load_codec_bytes-IsAnswer w content v.temp_files;
  untouched = λ h. refl;
}
handle_command-Handled w IpcCommand.cleanup v = record {
  answer = unfold handle_cleanup in success refl refl;
  untouched = λ h. refl;
}
handle_command-Handled w IpcCommand.shutdown v = record {
  answer = success refl refl;
  untouched = ground arith;
}
