-- ===== src/Output/Tests.antt =====
-- Runs of crates/around-engine/src/output_plan.rs on a snapshot with two devices.
use mathlib.Core.List.{Memᴰ}
use around.Base.{
  ℕ, ◌+◌, ◌≤◌, ◌<◌, Bool, true, false, ◌≡◌, ◌≢◌, ◌↔◌, ◌⊎◌, inl, inr, refl, arith, Ordering, Result,
  ok, err, List, [], ◌∷◌, Option, none, some,
}
use around.Base.Int.{pos, negsuc}
use around.Core.Spec.{SampleSpec, i16, f32, interleaved, native, little_endian}
use around.Output.Device.{
  OutputMode, OutputDevice, DeviceSnapshot, ModePreference, DeviceSelector, OutputPreference,
  SampleRateRange, OutputCategory, usb, onboard, no_device, no_mode, contains, candidates, spec_at,
  accepts, validate, stop, matches,
}
use around.Output.Device.Rates.{candidates_iff, Proposed}
use around.Output.Device.Modes.{spec_at_total, id_unique}
use around.Output.Loss.{total, conversion_loss, encoding_loss}
use around.Output.Loss.Laws.{rate_loss_zero}
use around.Output.Plan.{OutputPlan, plan_output, plan_of, compare_plan, mode_allowed, rates_for}
use around.Output.Plan.Laws.{Candidate, plan_output_best}
use around.Output.Plan.Target.{
  Planned, ComesFirst, plan_output-Planned, plan_output_priority, plan_output_exact,
}
use around.Output.Plan.Errors.{plan_output-ne-no_mode, plan_output-no_device}

abbrev float_mode : OutputMode
float_mode = record {
  id = 1;
  channels = 2;
  encoding = f32;
  rates = record { min = 44100; max = 96000 };
  default_rate = 48000;
  is_default = true;
  quality_rank = 2;
}

abbrev cd_mode : OutputMode
cd_mode = record {
  id = 2;
  channels = 2;
  encoding = i16;
  rates = record { min = 44100; max = 44100 };
  default_rate = 44100;
  is_default = false;
  quality_rank = 1;
}

abbrev headset : OutputDevice
headset = record {
  id = 97 ∷ [];
  name = 104 ∷ [];
  category = usb;
  priority = pos 5;
  modes = float_mode ∷ cd_mode ∷ [];
}

abbrev speaker : OutputDevice
speaker = record {
  id = 98 ∷ [];
  name = 115 ∷ [];
  category = onboard;
  priority = pos 1;
  modes = cd_mode ∷ [];
}

abbrev devices : DeviceSnapshot
devices = record { revision = 7; devices = headset ∷ speaker ∷ [] }

abbrev cd : SampleSpec
cd = record {
  sample_rate = 44100;
  channels = 2;
  encoding = i16;
  interleave = interleaved;
  byte_order = native;
}

abbrev hi_res : SampleSpec
hi_res = record cd { sample_rate = 96000; encoding = f32 }

abbrev wants : ModePreference → OutputPreference
wants mode = record { selector = DeviceSelector.any; mode = mode; recovery = stop }

abbrev prefs : List OutputPreference
prefs = wants (ModePreference.exact 44100 i16 2) ∷ wants ModePreference.any ∷ []

abbrev best : OutputPlan
best = plan_of devices cd (0, wants (ModePreference.exact 44100 i16 2)) headset cd_mode cd

abbrev other : OutputPlan
other = plan_of devices cd (1, wants ModePreference.any) headset float_mode hi_res

plan_test : plan_output devices cd prefs ≡ ok best
unfolding plan_output validate around.Base.Text.compare_text around.Base.for_each
    around.Output.Plan.try_preference around.Output.Plan.try_device matches
    around.Output.Plan.try_mode mode_allowed around.Core.Spec.encoding_eq contains rates_for
    around.Output.Plan.try_rate spec_at candidates around.Output.Plan.better compare_plan
    around.Base.Int.compare_ℤ total conversion_loss encoding_loss around.Core.Spec.bits
    around.Core.Spec.byte_order_eq around.Core.Spec.interleave_eq around.Core.Spec.is_float
    around.Core.Spec.is_signed around.Core.Spec.new around.Core.Spec.validate
    around.Output.Device.add_rate around.Output.Device.is_listed
    around.Output.Device.validate_devices around.Output.Device.validate_modes
    around.Output.Device.validate_order around.Output.Plan.requested_rate
plan_test = refl

other-Candidate : Candidate devices cd prefs other
unfolding matches mode_allowed rates_for spec_at candidates
other-Candidate = record {
  index = 1;
  preference = wants ModePreference.any;
  device = headset;
  mode = float_mode;
  rate = 96000;
  target = hi_res;
  preference_at = refl;
  device_in = Memᴰ.head refl;
  selected = refl;
  mode_in = Memᴰ.head refl;
  allowed = refl;
  rate_in = Memᴰ.tail (Memᴰ.tail (Memᴰ.head refl));
  target_at = refl;
  planned = refl;
}

plan_output_best_example : compare_plan other best ≢ Ordering.lt
plan_output_best_example = plan_output_best devices cd prefs best other plan_test other-Candidate

plan_output-Planned_example : Planned little_endian devices best
plan_output-Planned_example = plan_output-Planned devices cd prefs little_endian best plan_test

plan_output_priority_example : ComesFirst best other
plan_output_priority_example =
    plan_output_priority devices cd prefs best other plan_test other-Candidate

plan_output_exact_example :
    (best.target_spec.sample_rate ≡ 44100)
    × (best.target_spec.encoding ≡ i16)
    × (best.target_spec.channels ≡ 2)
plan_output_exact_example =
    plan_output_exact devices cd prefs best 44100 i16 2 (wants (ModePreference.exact 44100 i16 2))
      plan_test refl refl

plan_output-ne-no_mode_run : plan_output devices cd prefs ≢ err no_mode
plan_output-ne-no_mode_run = plan_output-ne-no_mode devices cd prefs

abbrev bluetooth_only : List OutputPreference
bluetooth_only =
    record {
      selector = DeviceSelector.category OutputCategory.bluetooth;
      mode = ModePreference.any;
      recovery = stop;
    }
    ∷ []

no_device_test : plan_output devices cd bluetooth_only ≡ err no_device
unfolding plan_output validate around.Base.Text.compare_text around.Base.for_each
    around.Output.Plan.try_preference around.Output.Plan.try_device matches
no_device_test = refl

plan_output-no_device_example : ¬ Candidate devices cd bluetooth_only other
plan_output-no_device_example = plan_output-no_device devices cd bluetooth_only no_device_test other

candidates_iff_run :
    Memᴰ 48000 (candidates float_mode.rates 44100 none 48000)
    ↔ ((contains float_mode.rates 48000 ≡ true) × Proposed float_mode.rates 44100 none 48000 48000)
candidates_iff_run = candidates_iff float_mode.rates 44100 none 48000 48000

spec_at_test : spec_at cd_mode 44100 ≡ ok cd
unfolding spec_at
spec_at_test = refl

spec_at_total_example : (s : SampleSpec) × (spec_at cd_mode 44100 ≡ ok s)
spec_at_total_example =
    spec_at_total cd_mode 44100 (unfold contains in refl) (ground arith) (ground arith)
      (ground arith)

validate_test : validate devices ≡ ok tt
unfolding validate around.Base.Text.compare_text
validate_test = refl

id_unique_run : headset ≡ headset
id_unique_run =
    id_unique devices headset headset validate_test (Memᴰ.head refl) (Memᴰ.head refl) refl

rate_loss_zero_run : ((conversion_loss cd hi_res).rate ≡ 0) ↔ (
    ((hi_res.sample_rate ≤ cd.sample_rate) × (cd.sample_rate < hi_res.sample_rate + 10))
    ⊎ ((cd.sample_rate ≤ hi_res.sample_rate) × (hi_res.sample_rate < cd.sample_rate + 100)))
rate_loss_zero_run = rate_loss_zero cd hi_res
