-- ===== src/Ipc/Invariant.antt =====
-- crates/around-engine/src/ipc/{handlers,mod}.rs: commands keep the invariant of the engine.
use around.Base.{ℕ, ◌+◌, ◌<◌, ◌^◌, inl, inr, Bool-cases, Option, Result-cases, ok, err}
use around.Base.Text.{Text}
use around.Engine.State.{Engine}
use around.Engine.Api.{prepare, seek_stream}
use around.Engine.Schedule
use around.Engine.Schedule.{apply}
use around.Engine.Invariant.{IsValidEngine, prepare-IsValidEngine, apply-IsValidEngine}
use around.Ipc.Types.{IpcCommand, IpcResponse}
use around.Ipc.Codecs.{World}
use around.Ipc.Handlers.{
  Server, resolve_stream_id, handle_play, handle_pause, handle_resume, handle_seek, handle_stop,
  handle_shutdown, handle_command,
}

handle_play-IsValidEngine :
    (w : World) (path : Text) (v : Server)
    → v.engine.next_stream_id + 1 < 2 ^ 64
    → IsValidEngine v.engine
    → IsValidEngine (handle_play w path v).1.engine
unfolding handle_play
handle_play-IsValidEngine w path v room h = elim (Bool-cases (w.exists path)) [
  | inr missing ↦ rw missing h
  | inl there ↦
      let kept = prepare-IsValidEngine (w.source path) (w.open_codec path) v.engine room h in
      rw there (elim (Result-cases (prepare (w.source path) (w.open_codec path) v.engine).0) [
        | inl (p, prepared) ↦ rw prepared kept
        | inr (x, refused) ↦ rw refused kept
      ])
]

resolved :
    (e : Engine) (id : Option ℕ) (run : ℕ → IpcResponse × Engine)
    → IsValidEngine e
    → ((sid : ℕ) → IsValidEngine (run sid).1)
    → let after : IpcResponse × Engine = elim (resolve_stream_id e id) [
      | err resp ↦ (resp, e)
      | ok sid ↦ run sid
    ] in
      IsValidEngine after.1
resolved e id run h keeps = elim (Result-cases (resolve_stream_id e id)) [
  | inl (sid, found) ↦ rw found (keeps sid)
  | inr (resp, refused) ↦ rw refused h
]

handle_seek-IsValidEngine :
    (p : ℕ) (id : Option ℕ) (e : Engine) → IsValidEngine e → IsValidEngine (handle_seek p id e).1
unfolding handle_seek
handle_seek-IsValidEngine p id e h = resolved e id _ h (λ sid.
    let kept : IsValidEngine (seek_stream sid p e).1 =
      unfold apply in apply-IsValidEngine (Schedule.seek sid p) e h in
    elim (Result-cases (seek_stream sid p e).0) [
      | inl (pos, accepted) ↦ rw accepted kept
      | inr (x, refused) ↦ rw refused kept
    ])

-- Every command keeps the invariant of the engine's streams, as long as the counter of stream ids does
-- not wrap.
pub handle_command-IsValidEngine :
    (w : World) (c : IpcCommand) (v : Server)
    → v.engine.next_stream_id + 1 < 2 ^ 64
    → IsValidEngine v.engine
    → IsValidEngine (handle_command w c v).1.engine
unfolding handle_command handle_pause handle_resume handle_stop handle_shutdown
handle_command-IsValidEngine w (IpcCommand.play path id) v room h =
    handle_play-IsValidEngine w path v room h
handle_command-IsValidEngine w (IpcCommand.pause id) v room h =
    resolved v.engine id _ h
      (λ sid. unfold apply in apply-IsValidEngine (Schedule.pause sid) v.engine h)
handle_command-IsValidEngine w (IpcCommand.resume id) v room h =
    resolved v.engine id _ h
      (λ sid. unfold apply in apply-IsValidEngine (Schedule.resume sid) v.engine h)
handle_command-IsValidEngine w (IpcCommand.seek p id) v room h =
    handle_seek-IsValidEngine p id v.engine h
handle_command-IsValidEngine w (IpcCommand.stop id) v room h =
    unfold apply in apply-IsValidEngine (Schedule.stop id) v.engine h
handle_command-IsValidEngine w (IpcCommand.status id) v room h = h
handle_command-IsValidEngine w IpcCommand.list_codecs v room h = h
handle_command-IsValidEngine w (IpcCommand.load_codec path) v room h = h
handle_command-IsValidEngine w (IpcCommand.load_codec_bytes content) v room h = h
handle_command-IsValidEngine w IpcCommand.cleanup v room h = h
handle_command-IsValidEngine w IpcCommand.shutdown v room h =
    unfold apply in apply-IsValidEngine Schedule.shut_down v.engine h
