-- ===== src/Engine/Schedule.antt =====
-- crates/around-engine/src/pipeline.rs: whole runs of `run_stream_with_session`. What other threads call
-- between two rounds is a list of `Op`s.
use around.Base.{ℕ, Option, none, some, List, [], ◌∷◌, Result, ok, err}
use around.Base.Table.{update}
use around.Engine.State.{Engine, playing, AroundError}
use around.Engine.Api.{
  set_status, seek_stream, stop_stream, pause_stream, resume_stream, shutdown, notify_device_lost,
}
use around.Engine.Loop.{Loop, Round, again, leave, round, finish, take_stream_resources}

-- What other threads may call while a loop runs.
pub data Op : Type 0 where
  seek : (id position_ms : ℕ) → Op
  stop : Option ℕ → Op
  pause : ℕ → Op
  resume : ℕ → Op
  shut_down : Op
  lose_device : Op

unfoldable pub apply : Op → Engine → Engine
apply (seek id position_ms) e = (seek_stream id position_ms e).1
apply (stop id) e = stop_stream id e
apply (pause id) e = pause_stream id e
apply (resume id) e = resume_stream id e
apply shut_down e = shutdown e
apply lose_device e = notify_device_lost e

unfoldable pub apply_all : List Op → Engine → Engine
apply_all [] e = e
apply_all (o ∷ os) e = apply_all os (apply o e)

-- The loop over a schedule: the calls before each round, and the round's answers. `none` means that
-- the schedule ends before the loop does.
unfoldable pub run_loop :
    List (List Op × Round) → Engine → Loop → Option (Result AroundError (Unit {0}) × Engine)
run_loop [] e l = none
run_loop ((ops, r) ∷ rest) e l =
    let (e', l', verdict) = round r (apply_all ops e) l in
    elim verdict [ leave ↦ some (finish e' l') | again ↦ run_loop rest e' l' ]

-- `run_stream_with_session`
unfoldable pub run_stream_with_session :
    ℕ → List (List Op × Round) → Engine → Option (Result AroundError (Unit {0}) × Engine)
run_stream_with_session id schedule e =
    let (taken, e') = take_stream_resources id e in
    elim taken [
      | err x ↦ some (err x, e')
      | ok l ↦
          run_loop schedule (record e' { streams = update id (set_status playing) e'.streams }) l
    ]
