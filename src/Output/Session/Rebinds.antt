-- ===== src/Output/Session/Rebinds.antt =====
-- crates/around-engine/src/output_session.rs: what stays true of a session that is bound again and again.
use around.Base.{
  ◌≡◌, refl, ◌∙◌, Bool, true, false, not, ◌||◌, List, Result, ok, err, Result-cases, inl, inr,
  guard, ◌>>◌, >>=-eq-ok, map_err, subst,
}
use around.Base.Text.{text_eq, text_eq_iff}
use around.Core.Spec.{SampleSpec, spec_eq}
use around.Core.Spec.Valid.{spec_eq_iff}
use around.Output.Device.{PlanError, DeviceSnapshot, OutputPreference}
use around.Output.Plan.{OutputPlan, plan_output}
use around.Output.Session.{
  MemoryOutputAdapter, MemoryOutputBinding, OutputSession, OutputError, Closing, planning,
  binding_failed, bind, plan_and_bind, open_session, rebind,
}

-- A plan and a binding that fit together: the plan is the planner's for some snapshot.
pub record FitsPlan (source : SampleSpec) (preferences : List OutputPreference) (plan : OutputPlan)
    (binding : MemoryOutputBinding) : Type 0 where
  pub snapshot : DeviceSnapshot
  pub planned : plan_output snapshot source preferences ≡ ok plan
  pub same_spec : binding.spec ≡ plan.target_spec
  pub same_device : binding.device_id ≡ plan.device_id

-- The chain, the plan and the binding of a session agree.
pub record IsBound (s : OutputSession) : Type 0 where
  pub fits : FitsPlan s.source_spec s.preferences s.plan s.binding
  pub chain_fits : s.chain_target ≡ s.plan.target_spec

-- `close` may fail, but it changes neither the binding's format nor its device.
pub record KeepsBinding (close_old : Closing) : Type 0 where
  pub keeps_spec : (b : MemoryOutputBinding) → (close_old b).1.spec ≡ b.spec
  pub keeps_device : (b : MemoryOutputBinding) → (close_old b).1.device_id ≡ b.device_id

-- A session that was opened and then bound again any number of times, whatever each attempt answered.
pub data Reachable : OutputSession → Type 0 where
  opens :
      (a : MemoryOutputAdapter) (source : SampleSpec) (preferences : List OutputPreference)
      {s : OutputSession}
      → open_session a source preferences ≡ ok s
      → Reachable s
  rebinds :
      (a : MemoryOutputAdapter) {close_old : Closing} {s : OutputSession}
      → KeepsBinding close_old
      → Reachable s
      → Reachable (rebind close_old a s).1

-- The types of two answers.
abbrev answer :
    Result OutputError (OutputPlan × MemoryOutputBinding)
    → Result OutputError (OutputPlan × MemoryOutputBinding)
answer r = r

abbrev opened : Result OutputError OutputSession → Result OutputError OutputSession
opened r = r

planned_ok :
    (r : Result PlanError OutputPlan) (plan : OutputPlan)
    → map_err planning r ≡ ok plan
    → r ≡ ok plan
planned_ok (ok p) plan h = cc
planned_ok (err e) plan h = cc

-- What a check of two conditions lets through.
both_hold :
    (b c : Bool) (v made : OutputPlan × MemoryOutputBinding)
    → (guard (not (not b || not c)) binding_failed >> ok v) ≡ ok made
    → (b ≡ true) × (c ≡ true) × (v ≡ made)
both_hold true true v made h = (refl, refl, ok_inj h)
  where
    ok_inj : {x y : OutputPlan × MemoryOutputBinding} → answer (ok x) ≡ answer (ok y) → x ≡ y
    ok_inj e = cc
both_hold true false v made h = cc
both_hold false c v made h = cc

plan_and_bind-FitsPlan :
    (a : MemoryOutputAdapter) (source : SampleSpec) (preferences : List OutputPreference)
    (made : OutputPlan × MemoryOutputBinding)
    → plan_and_bind a source preferences ≡ ok made
    → FitsPlan source preferences made.0 made.1
unfolding plan_and_bind
plan_and_bind-FitsPlan a source preferences made h =
    let (plan, planned, h1) =
      >>=-eq-ok (map_err planning (plan_output a.snapshot source preferences)) _ h in
    let (b, bound, h2) = >>=-eq-ok (bind a plan) _ h1 in
    let (spec, id, same) =
      both_hold (spec_eq b.spec plan.target_spec) (text_eq b.device_id plan.device_id) (plan, b)
        made h2 in
    subst (λ m. FitsPlan source preferences m.0 m.1) same
      (record {
        snapshot = a.snapshot;
        planned = planned_ok _ plan planned;
        same_spec = (spec_eq_iff b.spec plan.target_spec).0 spec;
        same_device = (text_eq_iff b.device_id plan.device_id).0 id;
      })

open_session-IsBound :
    (a : MemoryOutputAdapter) (source : SampleSpec) (preferences : List OutputPreference)
    (s : OutputSession)
    → open_session a source preferences ≡ ok s
    → IsBound s
unfolding open_session
open_session-IsBound a source preferences s h =
    let (made, bound, same) = >>=-eq-ok (plan_and_bind a source preferences) _ h in
    subst IsBound (session_inj same)
      (record { fits = plan_and_bind-FitsPlan a source preferences made bound; chain_fits = refl })
  where
    session_inj : {x y : OutputSession} → opened (ok x) ≡ opened (ok y) → x ≡ y
    session_inj e = cc

module _ (a : MemoryOutputAdapter) (close_old : Closing) (keeps : KeepsBinding close_old)
    (s : OutputSession) (bound : IsBound s) where
  left_open :
      (binding : MemoryOutputBinding)
      → binding.spec ≡ s.binding.spec
      → binding.device_id ≡ s.binding.device_id
      → IsBound (record s { binding = binding })
  left_open binding spec device = record {
    fits = record {
      snapshot = bound.fits.snapshot;
      planned = bound.fits.planned;
      same_spec = spec ∙ bound.fits.same_spec;
      same_device = device ∙ bound.fits.same_device;
    };
    chain_fits = bound.chain_fits;
  }

  rebind-IsBound : IsBound (rebind close_old a s).1
  unfolding rebind
  rebind-IsBound = elim (Result-cases (plan_and_bind a s.source_spec s.preferences)) [
    | inr (e, failed) ↦ rw (failed, rebind) bound
    | inl (made, planned) ↦
        let fits = plan_and_bind-FitsPlan a s.source_spec s.preferences made planned in
        elim (Result-cases (close_old s.binding).0) [
          | inr (e, stuck) ↦
              rw (planned, rebind)
                (rw stuck (
                  left_open (close_old s.binding).1 (keeps.keeps_spec s.binding)
                    (keeps.keeps_device s.binding)))
          | inl (done, closing) ↦
              rw (planned, rebind) (rw closing (record { fits = fits; chain_fits = refl }))
        ]
  ]

-- A session that was opened and then bound again any number of times, whatever each attempt answered,
-- stays in one piece, as long as closing a binding, which may fail, keeps its device and its format: the
-- session's plan is the planner's for some snapshot, its source and its preferences, its binding has
-- that plan's device and format, and its chain makes that format.
pub Reachable-IsBound : {s : OutputSession} → Reachable s → IsBound s
Reachable-IsBound (opens a source preferences {s = s} h) =
    open_session-IsBound a source preferences s h
Reachable-IsBound (rebinds a {close_old = close_old} {s = s} keeps before) =
    rebind-IsBound a close_old keeps s (Reachable-IsBound before)
