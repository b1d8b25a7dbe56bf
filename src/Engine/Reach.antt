-- ===== src/Engine/Reach.antt =====
-- crates/around-engine/src/pipeline.rs: the states that an engine can be in.
use around.Base.{ℕ, ◌+◌, ◌<◌, ◌^◌, Bool, arith, Result, Option-cases, inl, inr}
use around.Base.Table.{lookup}
use around.Core.Spec.{SampleSpec}
use around.Engine.State.{Engine, ActiveStream, AroundError, new}
use around.Engine.Api.{SourceInfo, Opened, prepare, set_stream_output_spec}
use around.Engine.Loop.{
  Loop, Round, take_reader, take_codec, take_resources, take_stream_resources, round, finish,
}
use around.Engine.Frame.{SameStream}
use around.Engine.Take.{take_found, take_missing}
use around.Engine.Schedule.{Op, apply}
use around.Engine.Invariant.{
  IsValidEngine, update-AreEntries, remove-AreEntries, replace-AreEntries, prepare-IsValidEngine,
  apply-IsValidEngine, round-IsValidEngine,
}

-- What may happen to an engine next: a call from any thread, or a part of a stream's loop.
pub data Step (e : Engine) : Engine → Type 0 where
  prepares :
      (source : SourceInfo) (opened : Result AroundError Opened)
      → e.next_stream_id + 1 < 2 ^ 64
      → Step e (prepare source opened e).1
  calls : (o : Op) → Step e (apply o e)
  binds : (id : ℕ) (spec : SampleSpec) → Step e (set_stream_output_spec id spec e).1
  takes : (id : ℕ) → Step e (take_stream_resources id e).1
  rounds : (r : Round) (l : Loop) → Step e (round r e l).0
  finishes : (l : Loop) → Step e (finish e l).1

-- The engines that come of a new one.
pub data Reachable : Engine → Type 0 where
  starts : (auto_reconnect : Bool) → Reachable (new auto_reconnect)
  goes : {e d : Engine} → Reachable e → Step e d → Reachable d

new-IsValidEngine : (auto_reconnect : Bool) → IsValidEngine (new auto_reconnect)
unfolding new lookup
new-IsValidEngine auto_reconnect k s found = cc

set_stream_output_spec-IsValidEngine :
    (id : ℕ) (spec : SampleSpec) (e : Engine)
    → IsValidEngine e
    → IsValidEngine (set_stream_output_spec id spec e).1
unfolding set_stream_output_spec
set_stream_output_spec-IsValidEngine id spec e h = elim (Option-cases (lookup id e.streams)) [
  | inl missing ↦ rw (missing, set_stream_output_spec) h
  | inr (s, found) ↦
      rw (found, set_stream_output_spec)
        (update-AreEntries e.next_stream_id id _ e.streams (λ n k t v. ground arith) h)
]

take_resources-SameStream : (id : ℕ) (s : ActiveStream) → SameStream s (take_resources id s).1
unfolding take_resources take_codec take_reader
take_resources-SameStream id s = ground arith

take_stream_resources-IsValidEngine :
    (id : ℕ) (e : Engine) → IsValidEngine e → IsValidEngine (take_stream_resources id e).1
take_stream_resources-IsValidEngine id e h = elim (Option-cases (lookup id e.streams)) [
  | inl missing ↦ rw (take_missing id e missing) h
  | inr (s, found) ↦ rw (take_found id e s found) (
      replace-AreEntries e.next_stream_id id s (take_resources id s).1 e.streams found
        (take_resources-SameStream id s) h)
]

Step-IsValidEngine : {e d : Engine} → Step e d → IsValidEngine e → IsValidEngine d
unfolding finish
Step-IsValidEngine (prepares source opened room) h = prepare-IsValidEngine source opened _ room h
Step-IsValidEngine (calls o) h = apply-IsValidEngine o _ h
Step-IsValidEngine (binds id spec) h = set_stream_output_spec-IsValidEngine id spec _ h
Step-IsValidEngine (takes id) h = take_stream_resources-IsValidEngine id _ h
Step-IsValidEngine (rounds r l) h = round-IsValidEngine r _ l h
Step-IsValidEngine {e = e} (finishes l) h = remove-AreEntries e.next_stream_id l.id e.streams h

-- In every engine that can be reached, whatever was called and however the loops ran, each stream's key
-- is its id, which has been given out, and its format is usable and has the stream's rate and channels,
-- as long as the counter of stream ids has not wrapped.
pub Reachable-IsValidEngine : {e : Engine} → Reachable e → IsValidEngine e
Reachable-IsValidEngine (starts auto_reconnect) = new-IsValidEngine auto_reconnect
Reachable-IsValidEngine (goes before step) =
    Step-IsValidEngine step (Reachable-IsValidEngine before)
