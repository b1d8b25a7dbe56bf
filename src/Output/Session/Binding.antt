-- ===== src/Output/Session/Binding.antt =====
-- crates/around-engine/src/output_session.rs: what is planned can be bound.
use mathlib.Core.List.{Memᴰ}
use around.Base.{
  Bool, true, false, ◌==◌, ==_iff, ◌≡◌, refl, sym, ap, ◌∙◌, subst, arith, inl, inr, Bool-cases,
  some, List, [], ◌∷◌, ok,
}
use around.Base.Text.{text_eq, text_eq_iff}
use around.Core.Spec.{SampleSpec, spec_eq, little_endian}
use around.Core.Spec.Valid.{spec_eq_iff}
use around.Output.Device
use around.Output.Device.{OutputMode, OutputDevice, DeviceSnapshot, OutputPreference, spec_at}
use around.Output.Device.Modes.{id_unique}
use around.Output.Plan.{OutputPlan, plan_output}
use around.Output.Plan.Target.{plan_output-Planned}
use around.Output.Session.{
  MemoryOutputAdapter, MemoryOutputBinding, OutputSession, find, bind, plan_and_bind, open_session,
}

-- No device of the snapshot has two modes with one id.
abbrev pub UniqueModes : DeviceSnapshot → Type 0
UniqueModes s =
    (d : OutputDevice) (m n : OutputMode)
    → Memᴰ d s.devices
    → Memᴰ m d.modes
    → Memᴰ n d.modes
    → m.id ≡ n.id
    → m ≡ n

-- Where only one element passes the test, `find` finds it.
find_only {ℓ} :
    {A : Type ℓ} (test : A → Bool) (xs : List A) (x : A)
    → Memᴰ x xs
    → test x ≡ true
    → ((y : A) → Memᴰ y xs → test y ≡ true → y ≡ x)
    → find test xs ≡ some x
unfolding find
find_only test [] x m passes only = elim m [ ]
find_only test (y ∷ xs) x m passes only = elim (Bool-cases (test y)) [
  | inl here ↦ rw here (ap some (only y (Memᴰ.head refl) here))
  | inr other ↦ rw other (find_only test xs x (later m other) passes (λ z n. only z (Memᴰ.tail n)))
]
  where
    later : Memᴰ x (y ∷ xs) → test y ≡ false → Memᴰ x xs
    later (Memᴰ.head same) other = absurd (clash (subst (λ z. test z ≡ true) same passes) other)
      where
        clash : {b : Bool} → b ≡ true → b ≡ false → ⊥
        clash p q = cc
    later (Memᴰ.tail n) other = n

valid_plan :
    (s : DeviceSnapshot) (source : SampleSpec) (prefs : List OutputPreference) (p : OutputPlan)
    → plan_output s source prefs ≡ ok p
    → Device.validate s ≡ ok tt
unfolding plan_output
valid_plan s source prefs p h = ground arith

abbrev pub binding_of : MemoryOutputAdapter → OutputPlan → MemoryOutputBinding
binding_of a p = record {
  device_id = p.device_id;
  spec = p.target_spec;
  closed = false;
  discard = a.discard;
}

bind-planned :
    (a : MemoryOutputAdapter) (source : SampleSpec) (prefs : List OutputPreference) (p : OutputPlan)
    → UniqueModes a.snapshot
    → plan_output a.snapshot source prefs ≡ ok p
    → bind a p ≡ ok (binding_of a p)
unfolding bind
bind-planned a source prefs p unique planned =
    let q = plan_output-Planned a.snapshot source prefs little_endian p planned in
    let valid = valid_plan a.snapshot source prefs p planned in
    let device : find (λ d. text_eq d.id p.device_id) a.snapshot.devices ≡ some q.device =
      find_only _ a.snapshot.devices q.device q.device_in
        ((text_eq_iff q.device.id p.device_id).1 (sym q.device_named))
        (λ d m same.
          id_unique a.snapshot d q.device valid m q.device_in
            ((text_eq_iff d.id p.device_id).0 same ∙ q.device_named)) in
    let mode : find (λ m. m.id == p.mode_id) q.device.modes ≡ some q.mode =
      find_only _ q.device.modes q.mode q.mode_in
        ((==_iff q.mode.id p.mode_id).1 (sym q.mode_named))
        (λ m n same.
          unique q.device m q.mode q.device_in n q.mode_in
            ((==_iff m.id p.mode_id).0 same ∙ q.mode_named)) in
    let revision : (p.snapshot_revision == a.snapshot.revision) ≡ true = (==_iff _ _).1 q.current in
    let spec : spec_eq p.target_spec p.target_spec ≡ true =
      (spec_eq_iff p.target_spec p.target_spec).1 refl in
    rw revision (rw device (rw mode (rw q.target_at (rw spec refl))))

abbrev pub session_of :
    MemoryOutputAdapter → SampleSpec → List OutputPreference → OutputPlan → OutputSession
session_of a source prefs p = record {
  preferences = prefs;
  plan = p;
  source_spec = source;
  chain_target = p.target_spec;
  binding = binding_of a p;
}

pub plan_and_bind-planned :
    (a : MemoryOutputAdapter) (source : SampleSpec) (prefs : List OutputPreference) (p : OutputPlan)
    → UniqueModes a.snapshot
    → plan_output a.snapshot source prefs ≡ ok p
    → plan_and_bind a source prefs ≡ ok (p, binding_of a p)
unfolding plan_and_bind
plan_and_bind-planned a source prefs p unique planned =
    let spec : spec_eq p.target_spec p.target_spec ≡ true =
      (spec_eq_iff p.target_spec p.target_spec).1 refl in
    let id : text_eq p.device_id p.device_id ≡ true =
      (text_eq_iff p.device_id p.device_id).1 refl in
    rw planned (rw (bind-planned a source prefs p unique planned) (rw spec (rw id refl)))

-- Whatever the planner returns can be bound: a session opens with that plan, bound to the planned
-- device in the planned format, as long as no device has two modes with one id.
pub open_session-planned :
    (a : MemoryOutputAdapter) (source : SampleSpec) (prefs : List OutputPreference) (p : OutputPlan)
    → UniqueModes a.snapshot
    → plan_output a.snapshot source prefs ≡ ok p
    → open_session a source prefs ≡ ok (session_of a source prefs p)
unfolding open_session
open_session-planned a source prefs p unique planned =
    rw (plan_and_bind-planned a source prefs p unique planned) refl
