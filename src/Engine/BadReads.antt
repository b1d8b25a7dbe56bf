-- ===== src/Engine/BadReads.antt =====
-- crates/around-engine/src/pipeline.rs: bad reads over a whole run of the decode loop.
use around.Base.{
  ℕ, Bool, true, false, ◌≡◌, sym, ap, ◌∙◌, arith, Option, none, some, List, [], ◌∷◌, if◌then◌else◌,
  inl, inr, Bool-cases, err, some_inj, ◌||◌, leb, refl, subst,
}
use around.Base.Table.{lookup, update, lookup-update}
use around.Engine.State.{Engine, ActiveStream, AroundError, decode_error, is_cancelled, is_paused}
use around.Engine.Loop.{
  Loop, Round, Verdict, again, round, finish, result_of, lost_round, decode_round,
}
use around.Engine.Schedule.{Op, apply_all, run_loop}
use around.Engine.Frame.{SameLoop, decode_round-Frame, lost_round-Frame}
use around.Engine.Rounds.{
  Advances, InLoop, decode_round-Advances, lost_round-Advances, round_cancelled, round_running,
}
use around.Engine.Counts.{count_round, Counts, decode_round-Counts, lost_round-Counts}
use around.Engine.Calls.{apply_all-Survives}
use around.Engine.Runs.{Verdict-cases, run_loop-leave, run_loop-again}

-- Whether the stream is paused when a round begins.
abbrev pub paused_in : ℕ → Engine → Bool
paused_in id e = elim (lookup id e.streams) [ none ↦ false | some s ↦ is_paused s.state.status ]

-- Whether three bad reads come in a row, after `count` before the schedule: no block is written between
-- them, and the rounds of a paused stream do not count.
unfoldable pub three_in_a_row : ℕ → List (List Op × Round) → Engine → Loop → Bool
three_in_a_row count [] e l = false
three_in_a_row count ((ops, r) ∷ rest) e l =
    let d = apply_all ops e in
    let row = count_round (paused_in l.id d) r count in
    let later = three_in_a_row row rest (round r d l).0 (round r d l).1 in leb 3 row || later

-- A round leaves a stream and a loop that fit together again, or a failure with its cause.
record Stepped (count : ℕ) (e : Engine) (l : Loop) (m : Engine × Loop × Verdict) : Type 0 where
  stream : ActiveStream
  there : lookup m.1.id m.0.streams ≡ some stream
  next : m.2 ≡ again → InLoop stream m.1
  going_on : m.2 ≡ again → m.1.consecutive_errors ≡ count
  failing : m.1.failure ≡ some decode_error → m.1.consecutive_errors ≡ count
  third_error : m.1.failure ≡ some decode_error → m.1.consecutive_errors ≡ 3

round-Stepped :
    (r : Round) (e : Engine) (l : Loop) (s : ActiveStream)
    → lookup l.id e.streams ≡ some s
    → InLoop s l
    → Stepped (count_round (is_paused s.state.status) r l.consecutive_errors) e l (round r e l)
round-Stepped r e l s found h = elim (Bool-cases (is_cancelled e s)) [
  | inl cancelled ↦ rw (round_cancelled r e l s found cancelled) (record {
    stream = s;
    there = found;
    next = λ v. h;
    going_on = ground arith;
    failing = ground arith;
    third_error = ground arith;
  })
  | inr running ↦ rw (round_running r e l s found running) (by_device e.device_lost)
]
  where
    row : ℕ
    row = count_round (is_paused s.state.status) r l.consecutive_errors

    staged_Stepped :
        (t : ActiveStream) (k : Loop) (v : Verdict)
        → Advances r.read l t k v
        → Counts row k v
        → SameLoop l k
        → Stepped row e l
            (record e { device_lost = false; streams = update l.id (λ _. t) e.streams }, k, v)
    staged_Stepped t k v a c same = record {
      stream = t;
      there = rw same.same_id (ground (arith, lookup-update l.id l.id (λ _. t) e.streams));
      next = λ goes_on. record {
        fine = a.no_failure goes_on;
        low = a.stays_low goes_on;
        positioned = a.positioned;
      };
      going_on = c.going_on;
      failing = c.failing;
      third_error = a.third_error;
    }

    by_device :
        (b : Bool)
        → let staged : ActiveStream × Loop × Verdict =
            if b
            then lost_round e.output_auto_reconnect r s l
            else decode_round e.output_auto_reconnect r s l in
          Stepped row e l (
            record e { device_lost = false; streams = update l.id (λ _. staged.0) e.streams },
            staged.1,
            staged.2,
          )
    by_device true =
        staged_Stepped _ _ _ (lost_round-Advances e.output_auto_reconnect r s l h)
          (lost_round-Counts e.output_auto_reconnect r s l h)
          (lost_round-Frame e.output_auto_reconnect r s l).1
    by_device false =
        staged_Stepped _ _ _ (decode_round-Advances e.output_auto_reconnect r s l h)
          (decode_round-Counts e.output_auto_reconnect r s l h)
          (decode_round-Frame e.output_auto_reconnect r s l).1

finished-err :
    (e : Engine) (l : Loop) (x : AroundError) (e' : Engine)
    → some (finish e l) ≡ some (err x, e')
    → l.failure ≡ some x
unfolding finish
finished-err e l x e' h = by_failure l.failure (ap (λ r. r.0) (some_inj _ _ h))
  where
    by_failure : (f : Option AroundError) → result_of f ≡ err x → f ≡ some x
    by_failure none same = cc
    by_failure (some y) same = cc

end_of_row : (row : ℕ) (later : Bool) → row ≡ 3 → (leb 3 row || later) ≡ true
end_of_row row later three = rw three refl

longer_row : (b later : Bool) → later ≡ true → (b || later) ≡ true
longer_row true later h = refl
longer_row false later h = h

-- A run of a stream that the engine holds, from a loop in order, ends with a decode error only after
-- three bad reads in a row, counted on from the loop's counter: a block that is written between bad
-- reads ends the row, and rounds of the paused stream do not count.
pub run_loop-decode_error :
    (schedule : List (List Op × Round)) (e : Engine) (l : Loop) (s : ActiveStream)
    → lookup l.id e.streams ≡ some s
    → InLoop s l
    → (e' : Engine) → run_loop schedule e l ≡ some (err decode_error, e')
    → three_in_a_row l.consecutive_errors schedule e l ≡ true
unfolding run_loop three_in_a_row
run_loop-decode_error [] e l s found fits e' h = cc
run_loop-decode_error ((ops, r) ∷ rest) e l s found fits e' h =
    let a = apply_all-Survives ops l.id s e found in
    let ready : InLoop a.stream l = record {
      fine = fits.fine;
      low = fits.low;
      positioned = a.same_position ∙ fits.positioned;
    } in
    let d = apply_all ops e in
    let b = round-Stepped r d l a.stream a.there ready in
    let next = round r d l in
    let status : count_round (paused_in l.id d) r l.consecutive_errors
        ≡ count_round (is_paused a.stream.state.status) r l.consecutive_errors =
      ap
        (λ o.
          count_round (elim o [ none ↦ false | some t ↦ is_paused t.state.status ]) r
            l.consecutive_errors)
        a.there in
    elim (Verdict-cases next.2) [
      | inl leaves ↦
          let broken =
            finished-err next.0 next.1 decode_error e'
              (sym (run_loop-leave ops r rest e l leaves) ∙ h) in
          end_of_row _ _ (status ∙ sym (b.failing broken) ∙ b.third_error broken)
      | inr goes_on ↦ longer_row _ _ (
          subst (λ c. three_in_a_row c rest next.0 next.1 ≡ true) (b.going_on goes_on ∙ sym status)
            (run_loop-decode_error rest next.0 next.1 b.stream b.there (b.next goes_on) e'
              (sym (run_loop-again ops r rest e l goes_on) ∙ h)))
    ]
