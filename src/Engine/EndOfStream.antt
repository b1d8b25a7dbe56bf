-- ===== src/Engine/EndOfStream.antt =====
-- crates/around-engine/src/pipeline.rs: how a stream that is played to its end leaves the loop.
use around.Base.{
  Bool, false, ◌≡◌, refl, ap, ◌∙◌, arith, none, some, List, [], ◌∷◌, Bool-cases, inl, inr, ok,
}
use around.Base.Int.{pos}
use around.Base.Table.{lookup}
use around.Engine.State.{Engine, ActiveStream, is_paused, is_cancelled}
use around.Engine.Loop.{
  Loop, Round, leave, Verdict, decode_round, read_block, round, finish, result_of,
}
use around.Engine.Schedule.{Op, run_loop, apply_all}
use around.Engine.Rounds.{InLoop, drain-InLoop, round_running}
use around.Engine.Runs.{run_loop-leave}

-- The loop is left without a failure.
abbrev pub LeavesWell : ActiveStream × Loop × Verdict → Type 0
LeavesWell r = (r.2 ≡ leave) × (r.1.failure ≡ none)

decode_round-LeavesWell :
    (reconnect : Bool) (r : Round) (s : ActiveStream) (l : Loop)
    → InLoop s l
    → is_paused s.state.status ≡ false
    → r.read ≡ pos 0
    → LeavesWell (decode_round reconnect r s l)
unfolding decode_round read_block
decode_round-LeavesWell reconnect r s l h runs ended = rw runs (elim (Bool-cases l.has_seek_rx) [
  | inl connected ↦ simp connected (
      rw ended (
        refl,
        InLoop.fine
            (drain-InLoop r.codec_seek s.seeks (record s { seeks = [] }) l (ground arith)).0,
      ))
  | inr alone ↦ simp alone (rw ended (refl, h.fine))
])

finished :
    (e : Engine) (l : Loop) → l.failure ≡ none → some (finish e l) ≡ some (ok tt, (finish e l).1)
unfolding finish
finished e l fine = ap (λ f. some (result_of f, (finish e l).1)) fine

-- A round that reads the end of a stream that runs on a device that is there ends the loop with
-- success.
pub run_loop-end_of_stream :
    (ops : List Op) (r : Round) (rest : List (List Op × Round)) (e : Engine) (l : Loop)
    (s : ActiveStream)
    → lookup l.id (apply_all ops e).streams ≡ some s
    → InLoop s l
    → is_cancelled (apply_all ops e) s ≡ false
    → (apply_all ops e).device_lost ≡ false
    → is_paused s.state.status ≡ false
    → r.read ≡ pos 0
    → (e' : Engine) × (run_loop ((ops, r) ∷ rest) e l ≡ some (ok tt, e'))
run_loop-end_of_stream ops r rest e l s found h running there runs ended =
    let d = apply_all ops e in
    let ran = round_running r d l s found running in
    let decoded = decode_round-LeavesWell d.output_auto_reconnect r s l h runs ended in
    let leaves : (round r d l).2 ≡ leave = ap (λ n. n.2) ran ∙ rw there (decoded.0) in
    let fine : (round r d l).1.failure ≡ none = ap (λ n. n.1.failure) ran ∙ rw there (decoded.1) in
    let next = round r d l in
    ((finish next.0 next.1).1, run_loop-leave ops r rest e l leaves ∙ finished next.0 next.1 fine)
