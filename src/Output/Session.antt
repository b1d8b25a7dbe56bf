-- ===== src/Output/Session.antt =====
-- crates/around-engine/src/output_session.rs: `OutputSession` over the `MemoryOutputAdapter`, whose
-- discovery, binder and bindings share one store. The filter chain is known by its source and its
-- target; what `process_workspace` writes is an argument of `submit_workspace`.
pub mod Binding
pub mod Writes
pub mod Rebinds
mod Tests
use around.Base.{
  ℕ, ◌*◌, ◌/◌, ◌%◌, Bool, true, false, not, ◌||◌, ◌&&◌, ◌==◌, if◌then◌else◌, Option, none, some,
  List, [], ◌∷◌, ◌++◌, length, Result, ok, err, ◌>>=◌, ◌>>◌, guard, ok_or, map_err,
}
use around.Base.Text.{Text, text_eq}
use around.Core.Spec.{SampleSpec, spec_eq, bytes_per_frame}
use around.Output.Device.{
  PlanError, OutputMode, OutputDevice, DeviceSnapshot, OutputPreference, spec_at,
}
use around.Output.Plan.{OutputPlan, plan_output}

pub data BindingStatus : Type 0 where
  active lost closed : BindingStatus

pub data OutputError : Type 0 where
  audio : OutputError
  planning : PlanError → OutputError
  binding_failed write_failed closed lost : OutputError

-- `writes` and `lost` are shared with the bindings.
pub record MemoryOutputAdapter : Type 0 where
  pub snapshot : DeviceSnapshot
  pub writes : List (List ℕ)
  pub lost : Bool
  pub discard : Bool

pub record MemoryOutputBinding : Type 0 where
  pub device_id : Text
  pub spec : SampleSpec
  pub closed : Bool
  pub discard : Bool

pub record OutputSession : Type 0 where
  pub preferences : List OutputPreference
  pub plan : OutputPlan
  -- `chain`
  pub source_spec : SampleSpec
  pub chain_target : SampleSpec
  pub binding : MemoryOutputBinding

-- `Iterator::find`
unfoldable pub find {ℓ} : {A : Type ℓ} → (A → Bool) → List A → Option A
find test [] = none
find test (x ∷ xs) = let later = find test xs in if test x then some x else later

-- `MemoryOutputAdapter::bind`
unfoldable pub bind : MemoryOutputAdapter → OutputPlan → Result OutputError MemoryOutputBinding
bind a plan = do
  guard (plan.snapshot_revision == a.snapshot.revision) binding_failed
  device ← ok_or (find (λ d. text_eq d.id plan.device_id) a.snapshot.devices) binding_failed
  mode ← ok_or (find (λ m. m.id == plan.mode_id) device.modes) binding_failed
  spec ← map_err (λ _. binding_failed) (spec_at mode plan.target_spec.sample_rate)
  guard (spec_eq spec plan.target_spec) binding_failed
  ok (record {
    device_id = plan.device_id;
    spec = plan.target_spec;
    closed = false;
    discard = a.discard;
  })

-- `MemoryOutputBinding::status`
unfoldable pub status : MemoryOutputAdapter → MemoryOutputBinding → BindingStatus
status a b =
    if b.closed
    then BindingStatus.closed
    else if a.lost
    then BindingStatus.lost
    else BindingStatus.active

-- The match on the status that `write` and `submit` begin with.
abbrev pub check_active : BindingStatus → Result OutputError (Unit {0})
check_active BindingStatus.active = ok tt
check_active BindingStatus.lost = err lost
check_active BindingStatus.closed = err closed

-- `MemoryOutputBinding::write` of a block with a format and bytes: what is pushed.
unfoldable pub write :
    MemoryOutputAdapter
    → MemoryOutputBinding
    → SampleSpec
    → List ℕ
    → Result OutputError (List (List ℕ))
write a b spec bytes = do
  check_active (status a b)
  guard (not (not (spec_eq spec b.spec) || not (length bytes % bytes_per_frame b.spec == 0)))
      write_failed
  ok (if b.discard then [] else bytes ∷ [])

-- `MemoryOutputBinding::close`
abbrev pub close : MemoryOutputBinding → MemoryOutputBinding
close b = record b { closed = true }

-- The plan and the binding that `open` and `rebind` make.
unfoldable pub plan_and_bind :
    MemoryOutputAdapter
    → SampleSpec
    → List OutputPreference
    → Result OutputError (OutputPlan × MemoryOutputBinding)
plan_and_bind a source preferences = do
  plan ← map_err planning (plan_output a.snapshot source preferences)
  b ← bind a plan
  guard (not (not (spec_eq b.spec plan.target_spec) || not (text_eq b.device_id plan.device_id)))
      binding_failed
  ok (plan, b)

-- `OutputSession::open`
unfoldable pub open_session :
    MemoryOutputAdapter → SampleSpec → List OutputPreference → Result OutputError OutputSession
open_session a source preferences = do
  made ← plan_and_bind a source preferences
  ok (record {
    preferences = preferences;
    plan = made.0;
    source_spec = source;
    chain_target = made.0.target_spec;
    binding = made.1;
  })

-- `OutputBinding::close`: it may fail, and what it leaves of the binding. `close` of the memory binding
-- always succeeds.
abbrev pub Closing : Type 0
Closing = MemoryOutputBinding → Result OutputError (Unit {0}) × MemoryOutputBinding

abbrev pub close_memory : Closing
close_memory b = (ok tt, close b)

-- `rebind`, whose old binding closes by `close_old`, and where a binding that does not close stays.
unfoldable pub rebind :
    Closing → MemoryOutputAdapter → OutputSession → Result OutputError (Unit {0}) × OutputSession
rebind close_old a s = elim (plan_and_bind a s.source_spec s.preferences) [
  | err e ↦ (err e, s)
  | ok made ↦
      let (closing, old) = close_old s.binding in
      elim closing [
        | err e ↦ (err e, record s { binding = old })
        | ok done ↦
            (ok tt, record s { binding = made.1; chain_target = made.0.target_spec; plan = made.0 })
      ]
]

-- `AudioBufferRef::new`, for a count of frames and the bytes.
abbrev pub check_length : SampleSpec → ℕ → List ℕ → Result OutputError (Unit {0})
check_length spec frames bytes = guard (frames * bytes_per_frame spec == length bytes) audio

abbrev pub push_all : MemoryOutputAdapter → List (List ℕ) → MemoryOutputAdapter
push_all a blocks = record a { writes = a.writes ++ blocks }

-- `submit_workspace` and `submit`, once the chain has put `processed` into the output region.
unfoldable pub submit_blocks :
    MemoryOutputAdapter
    → OutputSession
    → Result OutputError (List ℕ)
    → Result OutputError (ℕ × List (List ℕ))
submit_blocks a s processed = do
  check_active (status a s.binding)
  bytes ← processed
  let frame_bytes : ℕ = bytes_per_frame s.plan.target_spec
  check_length s.plan.target_spec (length bytes / frame_bytes) bytes
  pushed ← write a s.binding s.plan.target_spec bytes
  ok (length bytes, pushed)

unfoldable pub submit_workspace :
    MemoryOutputAdapter
    → OutputSession
    → Result OutputError (List ℕ)
    → Result OutputError ℕ × MemoryOutputAdapter
submit_workspace a s processed = elim (submit_blocks a s processed) [
  | err e ↦ (err e, a)
  | ok (written, pushed) ↦ (ok written, push_all a pushed)
]
