-- ===== src/Engine/Runs.antt =====
-- crates/around-engine/src/pipeline.rs: whole runs of the decode loop, with other threads' calls between
-- the rounds.
use around.Base.{
  Bool, true, false, ◌≡◌, refl, sym, subst, ap, ◌∙◌, arith, none, some, List, [], ◌∷◌, ◌++◌,
  if◌then◌else◌, inl, inr, ◌⊎◌, Bool-cases, Result, some_inj,
}
use around.Base.Table.{lookup, update, lookup-update, lookup-remove}
use around.Engine.State.{
  Engine, ActiveStream, AroundError, codec_drop, reader_drop, is_cancelled, drop_stream,
}
use around.Engine.Loop.{
  Loop, Round, Verdict, again, leave, round, finish, result_of, lost_round, decode_round,
}
use around.Engine.Schedule.{Op, stop, apply_all, run_loop}
use around.Engine.Frame.{SameHandles, RoundFrame, SameLoop, decode_round-Frame, lost_round-Frame}
use around.Engine.Rounds.{round_cancelled, round_running}
use around.Engine.Calls.{apply_all-Survives, stop_cancels}

pub Verdict-cases : (v : Verdict) → (v ≡ leave) ⊎ (v ≡ again)
Verdict-cases leave = inl refl
Verdict-cases again = inr refl

-- What a round leaves: the loop's identity, what was released, and the stream with what it holds.
pub record Rounded (e : Engine) (l : Loop) (s : ActiveStream) (n : Engine × Loop × Verdict)
    : Type 0 where
  pub same_loop : SameLoop l n.1
  pub same_releases : n.0.releases ≡ e.releases
  pub stream : ActiveStream
  pub there : lookup l.id n.0.streams ≡ some stream
  pub same_handles : drop_stream (some stream) ≡ drop_stream (some s)

SameHandles-drop :
    (s t : ActiveStream) → SameHandles s t → drop_stream (some t) ≡ drop_stream (some s)
unfolding drop_stream
SameHandles-drop s t same = simp (same.same_ptr, same.same_codec, same.same_reader) refl

round-Rounded :
    (r : Round) (e : Engine) (l : Loop) (s : ActiveStream)
    → lookup l.id e.streams ≡ some s
    → Rounded e l s (round r e l)
round-Rounded r e l s found = elim (Bool-cases (is_cancelled e s)) [
  | inl cancelled ↦ rw (round_cancelled r e l s found cancelled) (record {
    same_loop = ground arith;
    same_releases = refl;
    stream = s;
    there = found;
    same_handles = refl;
  })
  | inr running ↦ rw (round_running r e l s found running) (by_device e.device_lost)
]
  where
    staged_Rounded :
        (t : ActiveStream) (k : Loop) (v : Verdict)
        → RoundFrame s l (t, k, v)
        → Rounded e l s
            (record e { device_lost = false; streams = update l.id (λ _. t) e.streams }, k, v)
    staged_Rounded t k v same = record {
      same_loop = same.1;
      same_releases = refl;
      stream = t;
      there = ground (arith, lookup-update l.id l.id (λ _. t) e.streams);
      same_handles = SameHandles-drop s t same.2;
    }

    by_device :
        (b : Bool)
        → let staged : ActiveStream × Loop × Verdict =
            if b
            then lost_round e.output_auto_reconnect r s l
            else decode_round e.output_auto_reconnect r s l in
          Rounded e l s (
            record e { device_lost = false; streams = update l.id (λ _. staged.0) e.streams },
            staged.1,
            staged.2,
          )
    by_device true = staged_Rounded _ _ _ (lost_round-Frame e.output_auto_reconnect r s l)
    by_device false = staged_Rounded _ _ _ (decode_round-Frame e.output_auto_reconnect r s l)

-- What is left of a stream when its loop has ended: what the loop held and what its entry still held.
pub record Dropped (e : Engine) (l : Loop) (s : ActiveStream) (e' : Engine) : Type 0 where
  pub removed : lookup l.id e'.streams ≡ none
  pub released :
      e'.releases
      ≡ (e.releases ++ (codec_drop l.codec_ref l.stream_ptr ∷ reader_drop l.reader_ctx ∷ []))
        ++ drop_stream (some s)

finish-Dropped :
    (e : Engine) (l : Loop) (s : ActiveStream)
    → lookup l.id e.streams ≡ some s
    → Dropped e l s (finish e l).1
unfolding finish
finish-Dropped e l s found = record {
  removed = ground (arith, lookup-remove l.id l.id e.streams);
  released =
      ap
        (λ o.
          (e.releases ++ (codec_drop l.codec_ref l.stream_ptr ∷ reader_drop l.reader_ctx ∷ []))
          ++ drop_stream o)
        found;
}

carry :
    (e d : Engine) (l k : Loop) (s t : ActiveStream) (e' : Engine)
    → SameLoop l k
    → d.releases ≡ e.releases
    → drop_stream (some t) ≡ drop_stream (some s)
    → Dropped d k t e'
    → Dropped e l s e'
carry e d l k s t e' same kept held c = ground arith

pub run_loop-leave :
    (ops : List Op) (r : Round) (rest : List (List Op × Round)) (e : Engine) (l : Loop)
    → (round r (apply_all ops e) l).2 ≡ leave
    → run_loop ((ops, r) ∷ rest) e l
      ≡ some (finish (round r (apply_all ops e) l).0 (round r (apply_all ops e) l).1)
unfolding run_loop
run_loop-leave ops r rest e l leaves =
    let next = round r (apply_all ops e) l in
    subst
      (λ v.
        elim v [ leave ↦ some (finish next.0 next.1) | again ↦ run_loop rest next.0 next.1 ]
        ≡ some (finish next.0 next.1))
      (sym leaves) refl

pub run_loop-again :
    (ops : List Op) (r : Round) (rest : List (List Op × Round)) (e : Engine) (l : Loop)
    → (round r (apply_all ops e) l).2 ≡ again
    → run_loop ((ops, r) ∷ rest) e l
      ≡ run_loop rest (round r (apply_all ops e) l).0 (round r (apply_all ops e) l).1
unfolding run_loop
run_loop-again ops r rest e l goes_on =
    let next = round r (apply_all ops e) l in
    subst
      (λ v.
        elim v [ leave ↦ some (finish next.0 next.1) | again ↦ run_loop rest next.0 next.1 ]
        ≡ run_loop rest next.0 next.1)
      (sym goes_on) refl

finished-Dropped :
    (e : Engine) (l : Loop) (s : ActiveStream) (result : Result AroundError (Unit {0}))
    (e' : Engine)
    → lookup l.id e.streams ≡ some s
    → some (finish e l) ≡ some (result, e')
    → Dropped e l s e'
finished-Dropped e l s result e' found h =
    subst (λ d. Dropped e l s d.1) (some_inj _ _ h) (finish-Dropped e l s found)

pub run_loop-Dropped :
    (schedule : List (List Op × Round)) (e : Engine) (l : Loop) (s : ActiveStream)
    → lookup l.id e.streams ≡ some s
    → (result : Result AroundError (Unit {0})) (e' : Engine)
    → run_loop schedule e l ≡ some (result, e')
    → Dropped e l s e'
unfolding run_loop
run_loop-Dropped [] e l s found result e' h = cc
run_loop-Dropped ((ops, r) ∷ rest) e l s found result e' h =
    let a = apply_all-Survives ops l.id s e found in
    let b = round-Rounded r (apply_all ops e) l a.stream a.there in
    let next = round r (apply_all ops e) l in
    let held : lookup next.1.id next.0.streams ≡ some b.stream =
      subst (λ k. lookup k next.0.streams ≡ some b.stream) (sym b.same_loop.same_id) b.there in
    carry e next.0 l next.1 s b.stream e' b.same_loop (b.same_releases ∙ a.same_releases)
      (b.same_handles ∙ a.same_handles)
      (elim (Verdict-cases next.2) [
        | inl leaves ↦
            finished-Dropped next.0 next.1 b.stream result e' held
              (sym (run_loop-leave ops r rest e l leaves) ∙ h)
        | inr goes_on ↦
            run_loop-Dropped rest next.0 next.1 b.stream held result e'
              (sym (run_loop-again ops r rest e l goes_on) ∙ h)
      ])

-- For a stream that the engine holds, a stop among the calls before a round ends the loop in that
-- round, with the failure that the loop has and nothing else done in the round.
pub run_loop-stop :
    (before after : List Op) (r : Round) (rest : List (List Op × Round)) (e : Engine) (l : Loop)
    → (s : ActiveStream) → lookup l.id e.streams ≡ some s
    → run_loop ((before ++ stop (some l.id) ∷ after, r) ∷ rest) e l
      ≡ some (result_of l.failure, (finish (apply_all (before ++ stop (some l.id) ∷ after) e) l).1)
unfolding finish
run_loop-stop before after r rest e l s found =
    let ops = before ++ stop (some l.id) ∷ after in
    let b = stop_cancels before after l.id s e found in
    let left = round_cancelled r (apply_all ops e) l b.stream b.there b.cancelled in
    run_loop-leave ops r rest e l (ap (λ n. n.2) left) ∙ ap (λ n. some (finish n.0 n.1)) left
