-- ===== src/Output/Plan/Laws.antt =====
-- crates/around-engine/src/output_plan.rs: `plan_output` returns a best candidate.
use mathlib.Core.List.{Memᴰ}
use around.Base.{
  ℕ, zero, suc, ◌+◌, true, ◌≡◌, ◌≢◌, sym, ap, ◌∙◌, inl, inr, arith, Ordering, ok, List, [], ◌∷◌,
  Option, none, some, for_each, enumerate_from, get_elem?,
}
use around.Core.Spec.{SampleSpec}
use around.Output.Device.{
  OutputMode, OutputDevice, DeviceSnapshot, OutputPreference, spec_at, matches,
}
use around.Output.Plan.{
  OutputPlan, compare_plan, mode_allowed, rates_for, plan_of, try_preference, plan_output,
}
use around.Output.Plan.Best.{
  IsBest, IsBest-map, ByPreference, for_each-considers, try_preference-considers,
}

-- A plan that the snapshot and the preferences allow: which preference, device, mode and rate give it.
pub record Candidate (snapshot : DeviceSnapshot) (source : SampleSpec)
    (preferences : List OutputPreference) (q : OutputPlan) : Type 0 where
  pub index : ℕ
  pub preference : OutputPreference
  pub device : OutputDevice
  pub mode : OutputMode
  pub rate : ℕ
  pub target : SampleSpec
  pub preference_at : get_elem? preferences index ≡ some preference
  pub device_in : Memᴰ device snapshot.devices
  pub selected : matches preference.selector device ≡ true
  pub mode_in : Memᴰ mode device.modes
  pub allowed : mode_allowed preference.mode mode ≡ true
  pub rate_in : Memᴰ rate (rates_for source preference.mode mode)
  pub target_at : spec_at mode rate ≡ ok target
  pub planned : q ≡ plan_of snapshot source (index, preference) device mode target

enumerate_from-get_elem? {ℓ} :
    {A : Type ℓ} (xs : List A) (i : ℕ) (p : ℕ × A)
    → Memᴰ p (enumerate_from i xs)
    → (k : ℕ) × (p.0 ≡ i + k) × (get_elem? xs k ≡ some p.1)
enumerate_from-get_elem? [] i p m = elim m [ ]
enumerate_from-get_elem? (x ∷ xs) i p (Memᴰ.head e) =
    (0, ap (λ q. q.0) e ∙ omega arith, ap (λ q. some q.1) (sym e))
enumerate_from-get_elem? (x ∷ xs) i p (Memᴰ.tail m) =
    let (k, at, here) = enumerate_from-get_elem? xs (suc i) p m in (suc k, omega arith, here)

get_elem?-enumerate_from {ℓ} :
    {A : Type ℓ} (xs : List A) (i k j : ℕ) {x : A}
    → j ≡ i + k
    → get_elem? xs k ≡ some x
    → Memᴰ (j, x) (enumerate_from i xs)
get_elem?-enumerate_from [] i k j e h = cc
get_elem?-enumerate_from (y ∷ xs) i zero j {x} e h = Memᴰ.head (λ d. (place d, value d))
  where
    place : j ≡ i
    place = omega arith

    value : x ≡ y
    value = cc
get_elem?-enumerate_from (y ∷ xs) i (suc k) j e h =
    Memᴰ.tail (get_elem?-enumerate_from xs (suc i) k j (omega arith) h)

module _ (snapshot : DeviceSnapshot) (source : SampleSpec)
    (preferences : List OutputPreference) where
  abbrev Considered : OutputPlan → Type 0
  Considered q =
      (pref : ℕ × OutputPreference) × Memᴰ pref (enumerate_from 0 preferences)
      × ByPreference snapshot source pref q

  to_Candidate : (q : OutputPlan) → Considered q → Candidate snapshot source preferences q
  to_Candidate q (pref, i, by_preference) =
      let (device, d, by_device) = by_preference in
      let (mode, m, by_mode) = by_device.1 in
      let (rate, r, by_rate) = by_mode.1 in
      let (k, place, at_k) = enumerate_from-get_elem? preferences 0 pref i in
      let same : pref.0 ≡ k = omega arith in
      record {
        index = pref.0;
        preference = pref.1;
        device = device;
        mode = mode;
        rate = rate;
        target = by_rate.0;
        preference_at = rw same at_k;
        device_in = d;
        selected = by_device.0;
        mode_in = m;
        allowed = by_mode.0;
        rate_in = r;
        target_at = by_rate.1;
        planned = by_rate.2;
      }

  of_Candidate : (q : OutputPlan) → Candidate snapshot source preferences q → Considered q
  of_Candidate q c = (
    (c.index, c.preference),
    get_elem?-enumerate_from preferences 0 c.index c.index (omega arith) c.preference_at,
    (
      c.device,
      c.device_in,
      (
        c.selected,
        (c.mode, c.mode_in, (c.allowed, (c.rate, c.rate_in, (c.target, c.target_at, c.planned)))),
      ),
    ),
  )

  pub search-IsBest :
      (best : Option OutputPlan)
      → for_each (try_preference snapshot source) (enumerate_from 0 preferences) none ≡ ok best
      → IsBest (Candidate snapshot source preferences) best
  search-IsBest best e =
      IsBest-map _ _ (λ q. elim [ inl c ↦ absurd c | inr d ↦ to_Candidate q d ])
        (λ q c. inr (of_Candidate q c)) best
        (for_each-considers _ _ (try_preference-considers snapshot source)
          (enumerate_from 0 preferences) (λ q. ⊥) none best (λ q c. c) e)

  searched_ok :
      (p : OutputPlan)
      → plan_output snapshot source preferences ≡ ok p
      → for_each (try_preference snapshot source) (enumerate_from 0 preferences) none ≡ ok (some p)
  unfolding plan_output
  searched_ok p h = ground arith

  pub plan_output-Candidate :
      (p : OutputPlan)
      → plan_output snapshot source preferences ≡ ok p
      → Candidate snapshot source preferences p
  plan_output-Candidate p h = (search-IsBest (some p) (searched_ok p h)).0

  -- No plan that the snapshot and the preferences allow compares as less than the returned one.
  pub plan_output_best :
      (p q : OutputPlan)
      → plan_output snapshot source preferences ≡ ok p
      → Candidate snapshot source preferences q
      → compare_plan q p ≢ Ordering.lt
  plan_output_best p q h c = (search-IsBest (some p) (searched_ok p h)).1 q c
