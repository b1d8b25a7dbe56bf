-- ===== src/Output/Plan/Target.antt =====
-- crates/around-engine/src/output_plan.rs: what a plan says of the device and of the format.
use mathlib.Core.List.{Memᴰ}
use around.Base.{
  some_inj, subst, ℕ, ◌<◌, ◌⊎◌, true, ◌≡◌, ◌≢◌, sym, ap, ◌∙◌, arith, Ordering, ok, List, some,
  get_elem?,
}
use around.Base.Int.{compare_ℤ}
use around.Core.Spec.{SampleSpec, PcmEncoding, TargetEndian, little_endian}
use around.Core.Spec.Valid.{IsValid, encoding_eq_iff}
use around.Output.Device.{
  OutputMode, OutputDevice, DeviceSnapshot, ModePreference, OutputPreference, spec_at, accepts,
}
use around.Output.Device.Modes.{spec_at-accepts}
use around.Output.Plan.{OutputPlan, compare_plan, mode_allowed, rates_for, plan_output}
use around.Output.Plan.Laws.{Candidate, plan_output-Candidate, plan_output_best}

-- The device and the mode that a plan names stand in the snapshot, and the mode takes the format.
pub record Planned (t : TargetEndian) (snapshot : DeviceSnapshot) (p : OutputPlan) : Type 0 where
  pub device : OutputDevice
  pub mode : OutputMode
  pub device_in : Memᴰ device snapshot.devices
  pub mode_in : Memᴰ mode device.modes
  pub device_named : p.device_id ≡ device.id
  pub mode_named : p.mode_id ≡ mode.id
  pub accepted : accepts t mode p.target_spec ≡ true
  pub valid : IsValid p.target_spec
  pub target_at : spec_at mode p.target_spec.sample_rate ≡ ok p.target_spec
  pub current : p.snapshot_revision ≡ snapshot.revision

-- `p` comes from an earlier preference, or from the same one and a device of no lower priority.
abbrev pub ComesFirst : OutputPlan → OutputPlan → Type 0
ComesFirst p q =
    (p.preference_index < q.preference_index)
    ⊎ ((p.preference_index ≡ q.preference_index)
        × (compare_ℤ p.device_priority q.device_priority ≢ Ordering.lt))

compare_priority : (p q : OutputPlan) → compare_plan q p ≢ Ordering.lt → ComesFirst p q
unfolding compare_plan
compare_priority p q h = ground arith

exact_allowed :
    (rate : ℕ) (encoding : PcmEncoding) (channels : ℕ) (m : OutputMode)
    → mode_allowed (ModePreference.exact rate encoding channels) m ≡ true
    → (m.encoding ≡ encoding) × (m.channels ≡ channels)
unfolding mode_allowed
exact_allowed rate encoding channels m h = ground (arith, (encoding_eq_iff m.encoding encoding).0)

exact_rate :
    (source : SampleSpec) (rate : ℕ) (encoding : PcmEncoding) (channels : ℕ) (m : OutputMode)
    (x : ℕ)
    → Memᴰ x (rates_for source (ModePreference.exact rate encoding channels) m)
    → x ≡ rate
unfolding rates_for
exact_rate source rate encoding channels m x (Memᴰ.head e) = e
exact_rate source rate encoding channels m x (Memᴰ.tail t) = elim t [ ]

module _ (snapshot : DeviceSnapshot) (source : SampleSpec)
    (preferences : List OutputPreference) where
  Candidate-Planned :
      (t : TargetEndian) (p : OutputPlan)
      → Candidate snapshot source preferences p
      → Planned t snapshot p
  Candidate-Planned t p c =
      let (taken, valid, at_rate, _, _) = spec_at-accepts t c.mode c.rate c.target c.target_at in
      let same : p.target_spec ≡ c.target = ap (λ q. q.target_spec) c.planned in
      record {
        device = c.device;
        mode = c.mode;
        device_in = c.device_in;
        mode_in = c.mode_in;
        device_named = ap (λ q. q.device_id) c.planned;
        mode_named = ap (λ q. q.mode_id) c.planned;
        accepted = rw same taken;
        valid = rw same valid;
        target_at = rw same (subst (λ r. spec_at c.mode r ≡ ok c.target) (sym at_rate) c.target_at);
        current = ap (λ q. q.snapshot_revision) c.planned;
      }

  -- A returned plan names a device and a mode of the snapshot, and its valid format is the one that the
  -- mode accepts.
  pub plan_output-Planned :
      (t : TargetEndian) (p : OutputPlan)
      → plan_output snapshot source preferences ≡ ok p
      → Planned t snapshot p
  plan_output-Planned t p h =
      Candidate-Planned t p (plan_output-Candidate snapshot source preferences p h)

  -- Against every plan that the snapshot and the preferences allow, the returned plan comes from an
  -- earlier preference, or from the same one and a device of no lower priority.
  pub plan_output_priority :
      (p q : OutputPlan)
      → plan_output snapshot source preferences ≡ ok p
      → Candidate snapshot source preferences q
      → ComesFirst p q
  plan_output_priority p q h c =
      compare_priority p q (plan_output_best snapshot source preferences p q h c)

  -- Where the plan follows an exact preference, its format is the requested one.
  pub plan_output_exact :
      (p : OutputPlan) (rate : ℕ) (encoding : PcmEncoding) (channels : ℕ) (pref : OutputPreference)
      → plan_output snapshot source preferences ≡ ok p
      → get_elem? preferences p.preference_index ≡ some pref
      → pref.mode ≡ ModePreference.exact rate encoding channels
      → (p.target_spec.sample_rate ≡ rate)
        × (p.target_spec.encoding ≡ encoding)
        × (p.target_spec.channels ≡ channels)
  plan_output_exact p rate encoding channels pref h at is_exact =
      let c = (plan_output-Candidate snapshot source preferences p h) in
      let index : c.index ≡ p.preference_index = sym (ap (λ q. q.preference_index) c.planned) in
      let found : get_elem? preferences c.index ≡ some pref = rw index at in
      let same : c.preference ≡ pref = some_inj _ _ (sym c.preference_at ∙ found) in
      let mode : c.preference.mode ≡ ModePreference.exact rate encoding channels =
        ap (λ q. q.mode) same ∙ is_exact in
      let (enc, ch) = exact_allowed rate encoding channels c.mode (rw mode at c.allowed) in
      let r : c.rate ≡ rate =
        exact_rate source rate encoding channels c.mode c.rate (rw mode at c.rate_in) in
      let target : p.target_spec ≡ c.target = ap (λ q. q.target_spec) c.planned in
      let (_, _, t_rate, t_enc, t_ch) =
        spec_at-accepts little_endian c.mode c.rate c.target c.target_at in
      (
        ap (λ t. t.sample_rate) target ∙ t_rate ∙ r,
        ap (λ t. t.encoding) target ∙ t_enc ∙ enc,
        ap (λ t. t.channels) target ∙ t_ch ∙ ch,
      )
