-- ===== src/Output/Device.antt =====
-- crates/around-engine/src/output_plan.rs: output devices, their modes and a stream's preferences.
-- An error's variant is modelled; the text that it carries for people is not.
pub mod Rates
pub mod Modes
use around.Base.{
  ℕ, Bool, true, false, not, ◌||◌, ◌&&◌, Result, ok, err, ◌>>◌, ltb, leb, ◌==◌, if◌then◌else◌, List,
  [], ◌∷◌, ◌++◌, Option, none, some, guard, map_err,
}
use around.Base.Int.{ℤ}
use around.Base.Text.{Text, text_eq, is_ge}
use around.Core.Spec
use around.Core.Spec.{SampleSpec, PcmEncoding, native, interleaved, TargetEndian, encoding_eq}
use around.Core.Spec.{interleave_eq, is_native}

pub data OutputCategory : Type 0 where
  bluetooth usb onboard other : OutputCategory

abbrev pub category_index : OutputCategory → ℕ
category_index bluetooth = 0
category_index usb = 1
category_index onboard = 2
category_index other = 3

pub data PlanError : Type 0 where
  no_device : PlanError
  no_mode : PlanError
  unsupported_channels : ℕ → PlanError
  invalid_preference : PlanError
  invalid_capabilities : PlanError

pub record SampleRateRange : Type 0 where
  pub min : ℕ
  pub max : ℕ

-- `SampleRateRange::new`
unfoldable pub range_new : ℕ → ℕ → Result PlanError SampleRateRange
range_new min max =
    if min == 0 || ltb max min
    then err invalid_capabilities
    else ok (record { min = min; max = max })

unfoldable pub contains : SampleRateRange → ℕ → Bool
contains r rate = leb r.min rate && leb rate r.max

-- `Vec::contains`
unfoldable pub is_listed : ℕ → List ℕ → Bool
is_listed rate [] = false
is_listed rate (r ∷ rates) = r == rate || is_listed rate rates

-- The closure `add` of `candidates`.
unfoldable pub add_rate : SampleRateRange → ℕ → List ℕ → List ℕ
unfolding contains is_listed
add_rate r rate rates =
    if contains r rate && not (is_listed rate rates) then rates ++ (rate ∷ []) else rates

abbrev pub add_requested : SampleRateRange → Option ℕ → List ℕ → List ℕ
add_requested r none rates = rates
add_requested r (some rate) rates = add_rate r rate rates

unfoldable pub candidates : SampleRateRange → ℕ → Option ℕ → ℕ → List ℕ
unfolding add_rate
candidates r source_rate requested default_rate = add_rate r r.max (
    add_rate r r.min
      (add_rate r default_rate (add_requested r requested (add_rate r source_rate []))))

pub record OutputMode : Type 0 where
  pub id : ℕ
  pub channels : ℕ
  pub encoding : PcmEncoding
  pub rates : SampleRateRange
  pub default_rate : ℕ
  pub is_default : Bool
  pub quality_rank : ℕ

-- `u8::try_from(self.channels)` fails above 255.
unfoldable pub spec_at : OutputMode → ℕ → Result PlanError SampleSpec
unfolding contains Spec.new
spec_at m rate = do
  guard (contains m.rates rate) no_mode
  guard (leb m.channels 255) (unsupported_channels m.channels)
  map_err (λ _. invalid_capabilities) (Spec.new rate m.channels m.encoding interleaved native)

unfoldable pub accepts : TargetEndian → OutputMode → SampleSpec → Bool
unfolding contains is_native
accepts t m s =
    m.channels == s.channels
    && encoding_eq m.encoding s.encoding
    && interleave_eq s.interleave interleaved
    && is_native t s.byte_order
    && contains m.rates s.sample_rate

pub record OutputDevice : Type 0 where
  pub id : Text
  pub name : Text
  pub category : OutputCategory
  pub priority : ℤ
  -- `capabilities.modes`
  pub modes : List OutputMode

pub record DeviceSnapshot : Type 0 where
  pub revision : ℕ
  pub devices : List OutputDevice

-- The loop over `devices.windows(2)`.
unfoldable pub validate_order : List OutputDevice → Result PlanError (Unit {0})
validate_order [] = ok tt
validate_order (d ∷ []) = ok tt
validate_order (d ∷ e ∷ ds) = do
  guard (not (is_ge d.id e.id)) invalid_capabilities
  validate_order (e ∷ ds)

unfoldable pub validate_modes : List OutputMode → Result PlanError (Unit {0})
validate_modes [] = ok tt
validate_modes (m ∷ ms) = do
  guard (not (m.channels == 0 || m.rates.min == 0 || ltb m.rates.max m.rates.min))
      invalid_capabilities
  validate_modes ms

abbrev is_empty : Text → Bool
is_empty [] = true
is_empty (c ∷ s) = false

unfoldable pub validate_devices : List OutputDevice → Result PlanError (Unit {0})
unfolding validate_modes
validate_devices [] = ok tt
validate_devices (d ∷ ds) = do
  guard (not (is_empty d.id)) invalid_capabilities
  validate_modes d.modes
  validate_devices ds

-- `DeviceSnapshot::validate`
unfoldable pub validate : DeviceSnapshot → Result PlanError (Unit {0})
unfolding validate_order validate_devices
validate s = do validate_order s.devices; validate_devices s.devices

pub data DeviceSelector : Type 0 where
  exact : Text → DeviceSelector
  name : Text → DeviceSelector
  category : OutputCategory → DeviceSelector
  any : DeviceSelector

unfoldable pub matches : DeviceSelector → OutputDevice → Bool
matches (exact id) d = text_eq d.id id
matches (name n) d = text_eq d.name n
matches (category c) d = category_index d.category == category_index c
matches any d = true

pub data ModePreference : Type 0 where
  any : ModePreference
  rate : ℕ → ModePreference
  encoding : PcmEncoding → ModePreference
  exact : ℕ → PcmEncoding → ℕ → ModePreference

pub data RecoveryPolicy : Type 0 where
  continue_on_fallback pause_on_fallback stop : RecoveryPolicy

pub record OutputPreference : Type 0 where
  pub selector : DeviceSelector
  pub mode : ModePreference
  pub recovery : RecoveryPolicy
