-- ===== src/Output/Plan/Best.antt =====
-- crates/around-engine/src/output_plan.rs: the loops of `plan_output` keep the best candidate so far.
use mathlib.Core.List.{Memᴰ}
use mathlib.Core.Bool.{false≢true}
use around.Base.{
  ℕ, Bool, true, false, ◌≡◌, ◌≢◌, refl, subst, ap, ◌∙◌, ◌⊎◌, inl, inr, arith, Ordering, Result, ok,
  >>=-eq-ok, List, [], ◌∷◌, Option, none, some, for_each, if◌then◌else◌,
}
use around.Base.Compare.{IsCompare, is_less-cases}
use around.Core.Spec.{SampleSpec}
use around.Output.Device.{
  PlanError, OutputMode, OutputDevice, DeviceSnapshot, OutputPreference, spec_at, matches,
}
use around.Output.Plan.{
  OutputPlan, compare_plan, mode_allowed, rates_for, better, plan_of, try_rate, try_mode,
  try_device, try_preference,
}
use around.Output.Plan.Order.{compare_plan-IsCompare}

-- `best` holds a plan of `C` that none of `C` is better than, or `C` is empty.
abbrev pub IsBest : (OutputPlan → Type 0) → Option OutputPlan → Type 0
IsBest C none = (q : OutputPlan) → C q → ⊥
IsBest C (some p) = C p × ((q : OutputPlan) → C q → compare_plan q p ≢ Ordering.lt)

pub IsBest-map :
    (C D : OutputPlan → Type 0)
    → ((q : OutputPlan) → C q → D q)
    → ((q : OutputPlan) → D q → C q)
    → (best : Option OutputPlan) → IsBest C best
    → IsBest D best
IsBest-map C D f g none h = λ q d. h q (g q d)
IsBest-map C D f g (some p) h = (f p h.0, λ q d. h.1 q (g q d))

compare_plan_self : (p : OutputPlan) → compare_plan p p ≢ Ordering.lt
compare_plan_self p h = ground (arith, IsCompare.swap compare_plan-IsCompare p p)

better-IsBest :
    (C : OutputPlan → Type 0) (candidate : OutputPlan) (best : Option OutputPlan)
    → IsBest C best
    → IsBest (λ q. C q ⊎ (q ≡ candidate)) (better candidate best)
unfolding better
better-IsBest C candidate none h =
    (inr refl, λ q. elim [ inl c ↦ absurd (h q c) | inr e ↦ rw e (compare_plan_self candidate) ])
better-IsBest C candidate (some current) h = elim (is_less-cases (compare_plan candidate current)) [
  | inl (lt, test) ↦ rw test (
    inr refl,
    λ q. elim [
      | inl c ↦ λ l. h.1 q c (IsCompare.lt_trans compare_plan-IsCompare q candidate current l lt)
      | inr e ↦ rw e (compare_plan_self candidate)
    ],
  )
  | inr (ge, test) ↦ rw test (inl h.0, λ q. elim [ inl c ↦ h.1 q c | inr e ↦ rw e ge ])
]

-- A loop's body that goes from one best plan to another, having considered the plans of `D`.
abbrev pub Considers :
    (Option OutputPlan → Result PlanError (Option OutputPlan)) → (OutputPlan → Type 0) → Type 1
Considers body D =
    (C : OutputPlan → Type 0) (best best' : Option OutputPlan)
    → IsBest C best
    → body best ≡ ok best'
    → IsBest (λ q. C q ⊎ D q) best'

module _ {A : Type 0} (body : A → Option OutputPlan → Result PlanError (Option OutputPlan))
    (D : A → OutputPlan → Type 0) (step : (a : A) → Considers (body a) (D a)) where
  pub for_each-considers :
      (xs : List A) → Considers (for_each body xs) (λ q. (a : A) × Memᴰ a xs × D a q)
  unfolding for_each
  for_each-considers [] C best best' h e =
      let e' : best ≡ best' = cc in
      subst (IsBest _) e' (
        IsBest-map C _ (λ q c. inl c) (λ q. elim [ inl c ↦ c | inr (a, m, d) ↦ elim m [ ] ]) best h)
  for_each-considers (x ∷ xs) C best best' h e =
      let (b, first, rest) = >>=-eq-ok (body x best) (for_each body xs) e in
      IsBest-map _ _ (λ q. forth q) (λ q. back q) best'
        (for_each-considers xs _ b best' (step x C best b h first) rest)
    where
      forth :
          (q : OutputPlan)
          → (C q ⊎ D x q) ⊎ ((a : A) × Memᴰ a xs × D a q)
          → C q ⊎ ((a : A) × Memᴰ a (x ∷ xs) × D a q)
      forth q (inl (inl c)) = inl c
      forth q (inl (inr d)) = inr (x, Memᴰ.head refl, d)
      forth q (inr (a, m, d)) = inr (a, Memᴰ.tail m, d)

      back :
          (q : OutputPlan)
          → C q ⊎ ((a : A) × Memᴰ a (x ∷ xs) × D a q)
          → (C q ⊎ D x q) ⊎ ((a : A) × Memᴰ a xs × D a q)
      back q (inl c) = inl (inl c)
      back q (inr (a, Memᴰ.head p, d)) = inl (inr (subst (λ b. D b q) p d))
      back q (inr (a, Memᴰ.tail m, d)) = inr (a, m, d)

-- `if !test { continue }`
pub continue-considers :
    (test : Bool) (body : Option OutputPlan → Result PlanError (Option OutputPlan))
    (D : OutputPlan → Type 0)
    → Considers body D
    → Considers (λ best. if test then body best else ok best) (λ q. (test ≡ true) × D q)
continue-considers true body D step C best best' h e =
    IsBest-map _ _ (λ q. elim [ inl c ↦ inl c | inr d ↦ inr (refl, d) ])
      (λ q. elim [ inl c ↦ inl c | inr d ↦ inr d.1 ]) best' (step C best best' h e)
continue-considers false body D step C best best' h e =
    let e' : best ≡ best' = cc in
    subst (IsBest _) e' (
      IsBest-map C _ (λ q c. inl c) (λ q. elim [ inl c ↦ c | inr d ↦ absurd (false≢true d.0) ]) best
        h)

module _ (snapshot : DeviceSnapshot) (source : SampleSpec) where
  -- What each loop of `plan_output` considers, the innermost first.
  abbrev pub ByRate : ℕ × OutputPreference → OutputDevice → OutputMode → ℕ → OutputPlan → Type 0
  ByRate pref device mode rate q =
      (target : SampleSpec) × (spec_at mode rate ≡ ok target)
      × (q ≡ plan_of snapshot source pref device mode target)

  abbrev pub ByMode : ℕ × OutputPreference → OutputDevice → OutputMode → OutputPlan → Type 0
  ByMode pref device mode q =
      (mode_allowed pref.1.mode mode ≡ true)
      × ((rate : ℕ) × Memᴰ rate (rates_for source pref.1.mode mode)
          × ByRate pref device mode rate q)

  abbrev pub ByDevice : ℕ × OutputPreference → OutputDevice → OutputPlan → Type 0
  ByDevice pref device q =
      (matches pref.1.selector device ≡ true)
      × ((mode : OutputMode) × Memᴰ mode device.modes × ByMode pref device mode q)

  abbrev pub ByPreference : ℕ × OutputPreference → OutputPlan → Type 0
  ByPreference pref q =
      (device : OutputDevice) × Memᴰ device snapshot.devices × ByDevice pref device q

  try_rate-considers :
      (pref : ℕ × OutputPreference) (device : OutputDevice) (mode : OutputMode) (rate : ℕ)
      → Considers (try_rate snapshot source pref device mode rate) (ByRate pref device mode rate)
  unfolding try_rate
  try_rate-considers pref device mode rate C best best' h e =
      let (target, at, rest) = >>=-eq-ok (spec_at mode rate) _ e in
      let e' : better (plan_of snapshot source pref device mode target) best ≡ best' = cc in
      subst (IsBest _) e' (
        IsBest-map _ _ (λ q. elim [ inl c ↦ inl c | inr p ↦ inr (target, at, p) ])
          (λ q. elim [
            | inl c ↦ inl c
            | inr (t, at', p) ↦ inr (
                let same : t ≡ target = cc in
                p ∙ ap (plan_of snapshot source pref device mode) same)
          ])
          _ (better-IsBest C (plan_of snapshot source pref device mode target) best h))

  try_mode-considers :
      (pref : ℕ × OutputPreference) (device : OutputDevice) (mode : OutputMode)
      → Considers (try_mode snapshot source pref device mode) (ByMode pref device mode)
  unfolding try_mode
  try_mode-considers pref device mode = continue-considers (mode_allowed pref.1.mode mode) _ _ (
      for_each-considers _ _ (try_rate-considers pref device mode)
        (rates_for source pref.1.mode mode))

  try_device-considers :
      (pref : ℕ × OutputPreference) (device : OutputDevice)
      → Considers (try_device snapshot source pref device) (ByDevice pref device)
  unfolding try_device
  try_device-considers pref device =
      continue-considers (matches pref.1.selector device) _ _
        (for_each-considers _ _ (try_mode-considers pref device) device.modes)

  pub try_preference-considers :
      (pref : ℕ × OutputPreference)
      → Considers (try_preference snapshot source pref) (ByPreference pref)
  unfolding try_preference
  try_preference-considers pref =
      for_each-considers _ _ (try_device-considers pref) snapshot.devices
