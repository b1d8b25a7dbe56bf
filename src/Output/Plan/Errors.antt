-- ===== src/Output/Plan/Errors.antt =====
-- crates/around-engine/src/output_plan.rs: the errors that `plan_output` can return.
use mathlib.Core.List.{Memᴰ}
use around.Base.{
  ℕ, true, ◌≡◌, ◌≢◌, arith, ok, err, List, none, Option, for_each, for_each-err, enumerate_from,
  Bool-cases, inl, inr, >>=-eq-err,
}
use around.Core.Spec.{SampleSpec}
use around.Output.Device.{
  OutputMode, OutputDevice, DeviceSnapshot, ModePreference, OutputPreference, PlanError, spec_at,
  contains, matches, no_mode, no_device,
}
use around.Output.Device.Modes.{spec_at-no_mode, spec_at-no_device, validate-not}
use around.Output.Device.Rates.{candidates_iff}
use around.Output.Plan.{
  OutputPlan, mode_allowed, rates_for, plan_output, try_rate, try_mode, try_device, try_preference,
}
use around.Output.Plan.Laws.{Candidate, search-IsBest}

-- Every rate that a mode is tried at lies in the mode's range.
pub rates_for-contains :
    (source : SampleSpec) (p : ModePreference) (m : OutputMode) (rate : ℕ)
    → mode_allowed p m ≡ true
    → Memᴰ rate (rates_for source p m)
    → contains m.rates rate ≡ true
unfolding rates_for mode_allowed
rates_for-contains source ModePreference.any m rate a r =
    ((candidates_iff m.rates _ _ _ rate).0 r).0
rates_for-contains source (ModePreference.rate q) m rate a r =
    ((candidates_iff m.rates _ _ _ rate).0 r).0
rates_for-contains source (ModePreference.encoding q) m rate a r =
    ((candidates_iff m.rates _ _ _ rate).0 r).0
rates_for-contains source (ModePreference.exact q e c) m rate a (Memᴰ.head s) = rw s (ground arith)
rates_for-contains source (ModePreference.exact q e c) m rate a (Memᴰ.tail t) = elim t [ ]

module _ (snapshot : DeviceSnapshot) (source : SampleSpec) where
  -- A failed round of a loop comes from a mode that was tried at a rate in its range.
  abbrev Failing : PlanError → Type 0
  Failing e =
      (m : OutputMode) × (rate : ℕ) × (contains m.rates rate ≡ true) × (spec_at m rate ≡ err e)

  module _ (pref : ℕ × OutputPreference) (device : OutputDevice) (e : PlanError) where
    try_mode-err :
        (m : OutputMode) (best : Option OutputPlan)
        → try_mode snapshot source pref device m best ≡ err e
        → Failing e
    unfolding try_mode try_rate
    try_mode-err m best h = elim (Bool-cases (mode_allowed pref.1.mode m)) [
      | inl allowed ↦
          let (rate, t, r, failed) =
            for_each-err (try_rate snapshot source pref device m) (rates_for source pref.1.mode m)
              best e (rw allowed at h) in
          elim (>>=-eq-err (spec_at m rate) _ failed) [
            | inl failed ↦ (m, rate, rates_for-contains source pref.1.mode m rate allowed r, failed)
            | inr (target, _, no_error) ↦ cc
          ]
      | inr other ↦ let impossible : ok best ≡ err e = rw other at h in cc
    ]

    try_device-err :
        (best : Option OutputPlan) → try_device snapshot source pref device best ≡ err e → Failing e
    unfolding try_device
    try_device-err best h = elim (Bool-cases (matches pref.1.selector device)) [
      | inl selected ↦
          let (m, t, _, failed) =
            for_each-err (try_mode snapshot source pref device) device.modes best e
              (rw selected at h) in
          try_mode-err m t failed
      | inr other ↦ let impossible : ok best ≡ err e = rw other at h in cc
    ]

  search_err :
      (prefs : List (ℕ × OutputPreference)) (best : Option OutputPlan) (e : PlanError)
      → for_each (try_preference snapshot source) prefs best ≡ err e
      → Failing e
  unfolding try_preference
  search_err prefs best e h =
      let (pref, t, _, failed) = for_each-err (try_preference snapshot source) prefs best e h in
      let (device, u, _, failed') =
        for_each-err (try_device snapshot source pref) snapshot.devices t e failed in
      try_device-err pref device e u failed'

  search-not :
      (prefs : List (ℕ × OutputPreference)) (best : Option OutputPlan)
      → (for_each (try_preference snapshot source) prefs best ≢ err no_device)
        × (for_each (try_preference snapshot source) prefs best ≢ err no_mode)
  search-not prefs best = (
    λ h.
        let (m, rate, _, failed) = search_err prefs best no_device h in
        spec_at-no_device m rate failed,
    λ h.
        let (m, rate, within, failed) = search_err prefs best no_mode h in
        spec_at-no_mode m rate within failed,
  )

  module _ (preferences : List OutputPreference) where
    -- `NoMode` is never returned: each rate that is tried lies in the mode's range.
    pub plan_output-ne-no_mode : plan_output snapshot source preferences ≢ err no_mode
    unfolding plan_output
    plan_output-ne-no_mode h =
        ground (arith, validate-not snapshot, search-not (enumerate_from 0 preferences) none)

    searched_none :
        plan_output snapshot source preferences ≡ err no_device
        → for_each (try_preference snapshot source) (enumerate_from 0 preferences) none ≡ ok none
    unfolding plan_output
    searched_none h =
        ground (arith, validate-not snapshot, search-not (enumerate_from 0 preferences) none)

    -- Where `plan_output` answers `NoDevice`, no plan is allowed by the snapshot and the preferences.
    pub plan_output-no_device :
        plan_output snapshot source preferences ≡ err no_device
        → (q : OutputPlan) → ¬ Candidate snapshot source preferences q
    plan_output-no_device h q c =
        search-IsBest snapshot source preferences none (searched_none h) q c
