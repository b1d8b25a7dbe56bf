-- ===== src/Output/Plan.antt =====
-- crates/around-engine/src/output_plan.rs: `plan_output` and the order of its candidates.
pub mod Order
pub mod Best
pub mod Laws
pub mod Target
pub mod Errors
use around.Base.{
  ℕ, zero, Bool, true, false, not, ◌||◌, ◌&&◌, compare, Ordering, Result, ok, err, ◌>>=◌, ◌>>◌,
  guard, List, [], ◌∷◌, Option, none, some, ◌==◌, if◌then◌else◌, for_each, enumerate_from, ok_or,
}
use around.Base.Compare.{lex, reverse, on, is_less}
use around.Base.Int.{ℤ, compare_ℤ}
use around.Base.Text.{Text, compare_text}
use around.Core.Spec.{SampleSpec, PcmEncoding, encoding_eq}
use around.Output.Device
use around.Output.Device.{
  PlanError, no_device, invalid_preference, OutputMode, OutputDevice, DeviceSnapshot,
  ModePreference, RecoveryPolicy, OutputPreference, contains, candidates, spec_at, matches,
}
use around.Output.Loss.{ConversionLoss, total, conversion_loss, from_bool}

pub record OutputPlan : Type 0 where
  pub snapshot_revision : ℕ
  pub device_id : Text
  pub mode_id : ℕ
  pub target_spec : SampleSpec
  pub preference_index : ℕ
  pub device_priority : ℤ
  pub quality_rank : ℕ
  pub is_default : Bool
  pub conversion_loss : ConversionLoss
  pub recovery : RecoveryPolicy

-- The tuples' order, part by part; `false < true`.
unfoldable pub compare_plan : OutputPlan → OutputPlan → Ordering
compare_plan = lex (on (λ p. p.preference_index) compare) (
    lex (reverse (on (λ p. p.device_priority) compare_ℤ)) (
      lex (on (λ p. total p.conversion_loss) compare) (
        lex (reverse (on (λ p. p.quality_rank) compare)) (
          lex (reverse (on (λ p. from_bool p.is_default) compare)) (
            lex (reverse (on (λ p. p.target_spec.sample_rate) compare))
              (lex (on (λ p. p.device_id) compare_text) (on (λ p. p.mode_id) compare)))))))

-- `requested_rate`
unfoldable pub requested_rate : ModePreference → Option ℕ
requested_rate ModePreference.any = none
requested_rate (ModePreference.rate r) = some r
requested_rate (ModePreference.encoding e) = none
requested_rate (ModePreference.exact r e c) = some r

-- The two tests that `continue` with the next mode.
unfoldable pub mode_allowed : ModePreference → OutputMode → Bool
mode_allowed ModePreference.any m = true
mode_allowed (ModePreference.rate r) m = true
mode_allowed (ModePreference.encoding e) m = encoding_eq m.encoding e
mode_allowed (ModePreference.exact r e c) m =
    encoding_eq m.encoding e && not (not (m.channels == c) || not (contains m.rates r))

-- `rates`
unfoldable pub rates_for : SampleSpec → ModePreference → OutputMode → List ℕ
unfolding requested_rate
rates_for source (ModePreference.exact r e c) m = r ∷ []
rates_for source p m = candidates m.rates source.sample_rate (requested_rate p) m.default_rate

-- `best.is_none_or(|current| compare_plan(&candidate, current) == Less)`
unfoldable pub better : OutputPlan → Option OutputPlan → Option OutputPlan
better candidate none = some candidate
better candidate (some current) =
    if is_less (compare_plan candidate current) then some candidate else some current

module _ (snapshot : DeviceSnapshot) (source : SampleSpec) where
  -- The struct literal `candidate`.
  abbrev pub plan_of : ℕ × OutputPreference → OutputDevice → OutputMode → SampleSpec → OutputPlan
  plan_of (index, preference) device mode target = record {
    snapshot_revision = snapshot.revision;
    device_id = device.id;
    mode_id = mode.id;
    target_spec = target;
    preference_index = index;
    device_priority = device.priority;
    quality_rank = mode.quality_rank;
    is_default = mode.is_default;
    conversion_loss = conversion_loss source target;
    recovery = preference.recovery;
  }

  -- The bodies of the four nested loops, the innermost first.
  unfoldable pub try_rate :
      ℕ × OutputPreference
      → OutputDevice
      → OutputMode
      → ℕ
      → Option OutputPlan
      → Result PlanError (Option OutputPlan)
  try_rate pref device mode rate best = do
    target ← spec_at mode rate
    ok (better (plan_of pref device mode target) best)

  unfoldable pub try_mode :
      ℕ × OutputPreference
      → OutputDevice
      → OutputMode
      → Option OutputPlan
      → Result PlanError (Option OutputPlan)
  try_mode pref device mode best =
      if mode_allowed pref.1.mode mode
      then for_each (try_rate pref device mode) (rates_for source pref.1.mode mode) best
      else ok best

  unfoldable pub try_device :
      ℕ × OutputPreference → OutputDevice → Option OutputPlan → Result PlanError (Option OutputPlan)
  try_device pref device best =
      if matches pref.1.selector device
      then for_each (try_mode pref device) device.modes best
      else ok best

  unfoldable pub try_preference :
      ℕ × OutputPreference → Option OutputPlan → Result PlanError (Option OutputPlan)
  try_preference pref best = for_each (try_device pref) snapshot.devices best

abbrev is_nonempty {ℓ} : {A : Type ℓ} → List A → Bool
is_nonempty [] = false
is_nonempty (x ∷ xs) = true

unfoldable pub plan_output :
    DeviceSnapshot → SampleSpec → List OutputPreference → Result PlanError OutputPlan
plan_output snapshot source preferences = do
  Device.validate snapshot
  guard (is_nonempty preferences) invalid_preference
  best ← for_each (try_preference snapshot source) (enumerate_from 0 preferences) none
  ok_or best no_device
