-- ===== src/Output/Session/Tests.antt =====
-- Runs of crates/around-engine/src/output_session.rs on an adapter with one device.
use mathlib.Core.List.{Memᴰ}
use around.Base.{
  ℕ, Bool, true, false, ◌≡◌, refl, sym, subst, ◌∙◌, arith, Option, none, some, List, [], ◌∷◌, ◌++◌,
  length, Result, ◌⊎◌, ok, err,
}
use around.Base.Int.{pos}
use around.Core.Spec.{SampleSpec, i16, interleaved, native, bytes_per_frame}
use around.Output.Device.{
  OutputMode, OutputDevice, DeviceSnapshot, ModePreference, DeviceSelector, OutputPreference,
  onboard, stop, no_device, PlanError,
}
use around.Output.Plan.{OutputPlan, plan_output, plan_of}
use around.Output.Session.{
  MemoryOutputAdapter, OutputSession, OutputError, planning, open_session, submit_workspace, rebind,
  Closing, close, close_memory, write_failed,
}
use around.Output.Session.Binding.{
  UniqueModes, session_of, open_session-planned, plan_and_bind-planned,
}
use around.Output.Session.Writes.{Accepted, Refused, submit_workspace_lem}
use around.Output.Session.Rebinds.{
  IsBound, KeepsBinding, Reachable, opens, rebinds, Reachable-IsBound,
}

abbrev mode : OutputMode
mode = record {
  id = 2;
  channels = 2;
  encoding = i16;
  rates = record { min = 44100; max = 44100 };
  default_rate = 44100;
  is_default = true;
  quality_rank = 1;
}

abbrev speaker : OutputDevice
speaker = record {
  id = 98 ∷ [];
  name = 115 ∷ [];
  category = onboard;
  priority = pos 1;
  modes = mode ∷ [];
}

abbrev cd : SampleSpec
cd = record {
  sample_rate = 44100;
  channels = 2;
  encoding = i16;
  interleave = interleaved;
  byte_order = native;
}

abbrev any_mode : OutputPreference
any_mode = record { selector = DeviceSelector.any; mode = ModePreference.any; recovery = stop }

abbrev adapter : MemoryOutputAdapter
adapter = record {
  snapshot = record { revision = 3; devices = speaker ∷ [] };
  writes = (1 ∷ 2 ∷ 3 ∷ 4 ∷ []) ∷ [];
  lost = false;
  discard = false;
}

abbrev plan : OutputPlan
plan = plan_of adapter.snapshot cd (0, any_mode) speaker mode cd

plan_test : plan_output adapter.snapshot cd (any_mode ∷ []) ≡ ok plan
unfolding plan_output around.Output.Device.validate around.Base.Text.compare_text
    around.Base.for_each around.Output.Plan.try_preference around.Output.Plan.try_device
    around.Output.Device.matches around.Output.Plan.try_mode around.Output.Plan.mode_allowed
    around.Core.Spec.encoding_eq around.Output.Device.contains around.Output.Plan.rates_for
    around.Output.Plan.try_rate around.Output.Device.spec_at around.Output.Device.candidates
    around.Output.Plan.better around.Output.Plan.compare_plan around.Base.Int.compare_ℤ
    around.Output.Loss.total around.Output.Loss.conversion_loss around.Output.Loss.encoding_loss
    around.Core.Spec.bits around.Core.Spec.byte_order_eq around.Core.Spec.interleave_eq
    around.Core.Spec.is_float around.Core.Spec.is_signed around.Core.Spec.new
    around.Core.Spec.validate around.Output.Device.add_rate around.Output.Device.is_listed
    around.Output.Device.validate_devices around.Output.Device.validate_modes
    around.Output.Device.validate_order around.Output.Plan.requested_rate
plan_test = refl

only_mode : (m : OutputMode) → Memᴰ m (mode ∷ []) → m ≡ mode
only_mode m (Memᴰ.head same) = same
only_mode m (Memᴰ.tail none_left) = elim none_left [ ]

adapter-UniqueModes : UniqueModes adapter.snapshot
adapter-UniqueModes d m n (Memᴰ.head same) i j e =
    only_mode m (subst (λ c. Memᴰ m c.modes) same i)
    ∙ sym (only_mode n (subst (λ c. Memᴰ n c.modes) same j))
adapter-UniqueModes d m n (Memᴰ.tail none_left) i j e = elim none_left [ ]

open_session-planned_example :
    open_session adapter cd (any_mode ∷ []) ≡ ok (session_of adapter cd (any_mode ∷ []) plan)
open_session-planned_example =
    open_session-planned adapter cd (any_mode ∷ []) plan adapter-UniqueModes plan_test

open_session-planned_run :
    open_session adapter cd (any_mode ∷ []) ≡ ok (session_of adapter cd (any_mode ∷ []) plan)
open_session-planned_run =
    open_session-planned adapter cd (any_mode ∷ []) plan adapter-UniqueModes plan_test

abbrev session : OutputSession
session = session_of adapter cd (any_mode ∷ []) plan

abbrev block : List ℕ
block = 5 ∷ 6 ∷ 7 ∷ 8 ∷ []

submit_workspace_lem_example :
    Accepted adapter session (ok block) ⊎ Refused adapter session (ok block)
submit_workspace_lem_example = submit_workspace_lem adapter session (ok block)

written_test :
    submit_workspace adapter session (ok block)
    ≡ (ok 4, record adapter { writes = adapter.writes ++ (block ∷ []) })
unfolding submit_workspace around.Output.Session.submit_blocks around.Output.Session.status
    bytes_per_frame around.Output.Session.write around.Core.Spec.spec_eq
    around.Core.Spec.encoding_eq around.Core.Spec.interleave_eq around.Core.Spec.byte_order_eq
written_test = refl

-- The device is gone from the next snapshot.
abbrev unplugged : MemoryOutputAdapter
unplugged = record adapter { snapshot = record { revision = 4; devices = [] } }

unplugged_test : (rebind close_memory unplugged session).0 ≡ err (planning no_device)
unfolding rebind around.Output.Session.plan_and_bind plan_output around.Output.Device.validate
    around.Base.for_each around.Output.Plan.try_preference
unplugged_test = refl

-- A binding that is closed, although its `close` fails.
abbrev stuck : Closing
stuck b = (err write_failed, close b)

stuck-KeepsBinding : KeepsBinding stuck
stuck-KeepsBinding = record { keeps_spec = λ b. refl; keeps_device = λ b. refl }

session-Reachable : Reachable session
session-Reachable = opens adapter cd (any_mode ∷ []) open_session-planned_run

Reachable-IsBound_example : IsBound (rebind stuck adapter session).1
Reachable-IsBound_example = Reachable-IsBound (rebinds adapter stuck-KeepsBinding session-Reachable)

-- The session is left with the old plan, and with a binding that is closed.
stuck_test :
    rebind stuck adapter session
    ≡ (err write_failed, record session { binding = close session.binding })
unfolding rebind
stuck_test =
    rw (plan_and_bind-planned adapter cd (any_mode ∷ []) plan adapter-UniqueModes plan_test, rebind)
      refl
