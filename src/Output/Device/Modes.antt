-- ===== src/Output/Device/Modes.antt =====
-- crates/around-engine/src/output_plan.rs: what `OutputMode::spec_at` and `DeviceSnapshot::validate`
-- guarantee.
use mathlib.Core.List.{Memᴰ}
use around.Base.{
  ℕ, ◌≤◌, ◌<◌, true, ◌≡◌, ◌≢◌, refl, sym, ap, subst, ◌∙◌, arith, Ordering, ok, err, List, [], ◌∷◌,
}
use around.Base.Text.{compare_text, compare_text-IsCompare, compare_text_self}
use around.Base.Compare.{IsCompare}
use around.Core.Spec.{SampleSpec, interleaved, native, TargetEndian}
use around.Core.Spec.Valid.{IsValid, encoding_eq_self, interleave_eq_self}
use around.Output.Device.{
  OutputMode, OutputDevice, DeviceSnapshot, no_mode, no_device, contains, spec_at, accepts,
  validate, validate_order, validate_devices, validate_modes,
}

-- The mode accepts the format, and the format is valid and has the rate that was asked for.
pub spec_at-accepts :
    (t : TargetEndian) (m : OutputMode) (rate : ℕ) (s : SampleSpec)
    → spec_at m rate ≡ ok s
    → (accepts t m s ≡ true)
      × IsValid s
      × (s.sample_rate ≡ rate)
      × (s.encoding ≡ m.encoding)
      × (s.channels ≡ m.channels)
unfolding spec_at accepts
spec_at-accepts t m rate s h =
    ground (arith, encoding_eq_self m.encoding, interleave_eq_self interleaved)

-- Where the rate is in range and not 0, only a channel count outside 1..=32 is refused.
pub spec_at_total :
    (m : OutputMode) (rate : ℕ)
    → contains m.rates rate ≡ true
    → 0 < rate
    → 0 < m.channels
    → m.channels ≤ 32
    → (s : SampleSpec) × (spec_at m rate ≡ ok s)
unfolding spec_at
spec_at_total m rate h p q r = (
  record {
    sample_rate = rate;
    channels = m.channels;
    encoding = m.encoding;
    interleave = interleaved;
    byte_order = native;
  },
  ground arith,
)

pub spec_at-no_mode :
    (m : OutputMode) (rate : ℕ) → contains m.rates rate ≡ true → spec_at m rate ≢ err no_mode
unfolding spec_at
spec_at-no_mode m rate h e = ground arith

pub spec_at-no_device : (m : OutputMode) (rate : ℕ) → spec_at m rate ≢ err no_device
unfolding spec_at
spec_at-no_device m rate e = ground arith

pub validate_modes-not :
    (ms : List OutputMode) → (validate_modes ms ≢ err no_device) × (validate_modes ms ≢ err no_mode)
unfolding validate_modes
validate_modes-not [] = ground arith
validate_modes-not (m ∷ ms) = ground (arith, validate_modes-not ms)

validate_order-not :
    (ds : List OutputDevice)
    → (validate_order ds ≢ err no_device) × (validate_order ds ≢ err no_mode)
unfolding validate_order
validate_order-not [] = ground arith
validate_order-not (d ∷ []) = ground arith
validate_order-not (d ∷ e ∷ ds) = ground (arith, validate_order-not (e ∷ ds))

validate_devices-not :
    (ds : List OutputDevice)
    → (validate_devices ds ≢ err no_device) × (validate_devices ds ≢ err no_mode)
unfolding validate_devices
validate_devices-not [] = ground arith
validate_devices-not (d ∷ ds) = ground (arith, validate_modes-not d.modes, validate_devices-not ds)

pub validate-not : (s : DeviceSnapshot) → (validate s ≢ err no_device) × (validate s ≢ err no_mode)
unfolding validate
validate-not s = ground (arith, validate_order-not s.devices, validate_devices-not s.devices)

before_all :
    (d : OutputDevice) (ds : List OutputDevice) (e : OutputDevice)
    → validate_order (d ∷ ds) ≡ ok tt
    → Memᴰ e ds
    → compare_text d.id e.id ≡ Ordering.lt
unfolding validate_order
before_all d [] e h m = elim m [ ]
before_all d (f ∷ ds) e h (Memᴰ.head p) = rw p (ground arith)
before_all d (f ∷ ds) e h (Memᴰ.tail m) =
    let first : compare_text d.id f.id ≡ Ordering.lt = ground arith in
    let rest : validate_order (f ∷ ds) ≡ ok tt = ground arith in
    IsCompare.lt_trans compare_text-IsCompare d.id f.id e.id first (before_all f ds e rest m)

not_before : (d e : OutputDevice) → compare_text d.id e.id ≡ Ordering.lt → d.id ≢ e.id
not_before d e h same =
    ground (arith, compare_text_self e.id, subst (λ i. compare_text i e.id ≡ Ordering.lt) same h)

tail_valid :
    (d : OutputDevice) (ds : List OutputDevice)
    → validate_order (d ∷ ds) ≡ ok tt
    → validate_order ds ≡ ok tt
unfolding validate_order
tail_valid d [] h = refl
tail_valid d (e ∷ ds) h = ground arith

id_unique_sorted :
    (ds : List OutputDevice) (d e : OutputDevice)
    → validate_order ds ≡ ok tt
    → Memᴰ d ds
    → Memᴰ e ds
    → d.id ≡ e.id
    → d ≡ e
unfolding validate_order
id_unique_sorted [] d e h m n same = elim m [ ]
id_unique_sorted (f ∷ ds) d e h (Memᴰ.head p) (Memᴰ.head q) same = p ∙ sym q
id_unique_sorted (f ∷ ds) d e h (Memᴰ.head p) (Memᴰ.tail n) same =
    absurd (not_before f e (before_all f ds e h n) (ap (λ c. c.id) (sym p) ∙ same))
id_unique_sorted (f ∷ ds) d e h (Memᴰ.tail m) (Memᴰ.head q) same =
    absurd (not_before f d (before_all f ds d h m) (ap (λ c. c.id) (sym q) ∙ sym same))
id_unique_sorted (f ∷ ds) d e h (Memᴰ.tail m) (Memᴰ.tail n) same =
    id_unique_sorted ds d e (tail_valid f ds h) m n same

validate-order : (s : DeviceSnapshot) → validate s ≡ ok tt → validate_order s.devices ≡ ok tt
unfolding validate
validate-order s h = ground arith

-- In a snapshot that passes `validate`, a device is known by its id.
pub id_unique :
    (s : DeviceSnapshot) (d e : OutputDevice)
    → validate s ≡ ok tt
    → Memᴰ d s.devices
    → Memᴰ e s.devices
    → d.id ≡ e.id
    → d ≡ e
id_unique s d e h = id_unique_sorted s.devices d e (validate-order s h)
