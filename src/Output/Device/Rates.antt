-- ===== src/Output/Device/Rates.antt =====
-- crates/around-engine/src/output_plan.rs: the sample rates that `SampleRateRange::candidates` offers.
use mathlib.Core.List.{Memᴰ}
use mathlib.Core.Bool.{false≢true}
use around.Base.{
  ℕ, true, ◌≡◌, refl, sym, ap, ◌⊎◌, inl, inr, ◌↔◌, arith, ==_iff, ◌==◌, Bool-cases, List, [], ◌∷◌,
  ◌++◌, Option, none, some,
}
use around.Output.Device.{SampleRateRange, contains, is_listed, add_rate, add_requested, candidates}

is_listed-mem : (x : ℕ) (xs : List ℕ) → is_listed x xs ≡ true → Memᴰ x xs
unfolding is_listed
is_listed-mem x [] h = cc
is_listed-mem x (y ∷ xs) h = elim (Bool-cases (y == x)) [
  | inl same ↦ Memᴰ.head (sym ((==_iff y x).0 same))
  | inr other ↦ Memᴰ.tail (is_listed-mem x xs (rw other at h))
]

mem-is_listed : (x : ℕ) (xs : List ℕ) → Memᴰ x xs → is_listed x xs ≡ true
unfolding is_listed
mem-is_listed x [] m = elim m [ ]
mem-is_listed x (y ∷ xs) (Memᴰ.head e) = ground arith
mem-is_listed x (y ∷ xs) (Memᴰ.tail m) = ground (arith, mem-is_listed x xs m)

mem-append_last : (x y : ℕ) (xs : List ℕ) → Memᴰ x (xs ++ (y ∷ [])) → Memᴰ x xs ⊎ (x ≡ y)
mem-append_last x y [] (Memᴰ.head e) = inr e
mem-append_last x y [] (Memᴰ.tail m) = inl m
mem-append_last x y (z ∷ xs) (Memᴰ.head e) = inl (Memᴰ.head e)
mem-append_last x y (z ∷ xs) (Memᴰ.tail m) = elim (mem-append_last x y xs m) [
  | inl t ↦ inl (Memᴰ.tail t)
  | inr e ↦ inr e
]

append_last-mem : (x y : ℕ) (xs : List ℕ) → Memᴰ x xs ⊎ (x ≡ y) → Memᴰ x (xs ++ (y ∷ []))
append_last-mem x y [] (inl m) = elim m [ ]
append_last-mem x y [] (inr e) = Memᴰ.head e
append_last-mem x y (z ∷ xs) (inl (Memᴰ.head e)) = Memᴰ.head e
append_last-mem x y (z ∷ xs) (inl (Memᴰ.tail m)) = Memᴰ.tail (append_last-mem x y xs (inl m))
append_last-mem x y (z ∷ xs) (inr e) = Memᴰ.tail (append_last-mem x y xs (inr e))

mem-add_last : (x y : ℕ) (xs : List ℕ) → Memᴰ x (xs ++ (y ∷ [])) ↔ (Memᴰ x xs ⊎ (x ≡ y))
mem-add_last x y xs = (mem-append_last x y xs, append_last-mem x y xs)

add_rate_iff :
    (r : SampleRateRange) (x y : ℕ) (ys : List ℕ)
    → Memᴰ x (add_rate r y ys) ↔ (Memᴰ x ys ⊎ ((x ≡ y) × (contains r y ≡ true)))
unfolding add_rate
add_rate_iff r x y ys = elim (Bool-cases (contains r y)) [
  | inl within ↦ elim (Bool-cases (is_listed y ys)) [
    | inl old ↦
        rw (within, old)
          (λ m. inl m, λ s. elim s [ inl m ↦ m | inr e ↦ rw e.0 (is_listed-mem y ys old) ])
    | inr new ↦
        rw (within, new)
          (
            λ m. elim ((mem-add_last x y ys).0 m) [ inl t ↦ inl t | inr e ↦ inr (e, refl) ],
            λ s. (mem-add_last x y ys).1 (elim s [ inl m ↦ inl m | inr e ↦ inr e.0 ]),
          )
  ]
  | inr out ↦ rw out (λ m. inl m, λ s. elim s [ inl m ↦ m | inr e ↦ absurd (false≢true e.1) ])
]

add_requested_iff :
    (r : SampleRateRange) (x : ℕ) (requested : Option ℕ) (ys : List ℕ)
    → Memᴰ x (add_requested r requested ys)
      ↔ (Memᴰ x ys ⊎ ((requested ≡ some x) × (contains r x ≡ true)))
add_requested_iff r x none ys = (λ m. inl m, λ s. elim s [ inl m ↦ m | inr e ↦ cc ])
add_requested_iff r x (some y) ys = (forth, back)
  where
    forth : Memᴰ x (add_rate r y ys) → Memᴰ x ys ⊎ ((some y ≡ some x) × (contains r x ≡ true))
    forth m = elim ((add_rate_iff r x y ys).0 m) [
      | inl t ↦ inl t
      | inr e ↦ inr (ap some (sym e.0), rw (e.0) (e.1))
    ]

    back : Memᴰ x ys ⊎ ((some y ≡ some x) × (contains r x ≡ true)) → Memᴰ x (add_rate r y ys)
    back s =
        (add_rate_iff r x y ys).1 (elim s [
          | inl m ↦ inl m
          | inr e ↦ let same : x ≡ y = cc in inr (same, rw (← same) (e.1))
        ])

-- The rates that `candidates` is asked to offer.
abbrev pub Proposed : SampleRateRange → ℕ → Option ℕ → ℕ → ℕ → Type 0
Proposed r source_rate requested default_rate x =
    (x ≡ source_rate) ⊎ (requested ≡ some x) ⊎ (x ≡ default_rate) ⊎ (x ≡ r.min) ⊎ (x ≡ r.max)

module _ (r : SampleRateRange) (source_rate : ℕ) (requested : Option ℕ) (default_rate x : ℕ) where
  keep : (y : ℕ) → x ≡ y → contains r y ≡ true → contains r x ≡ true
  keep y e h = rw e h

  add_here : (y : ℕ) (ys : List ℕ) → x ≡ y → contains r x ≡ true → Memᴰ x (add_rate r y ys)
  add_here y ys e h = (add_rate_iff r x y ys).1 (inr (e, rw (← e) h))

  add_before : (y : ℕ) (ys : List ℕ) → Memᴰ x ys → Memᴰ x (add_rate r y ys)
  add_before y ys m = (add_rate_iff r x y ys).1 (inl m)

  -- `candidates` offers exactly the proposed rates that the range contains.
  pub candidates_iff :
      Memᴰ x (candidates r source_rate requested default_rate)
      ↔ ((contains r x ≡ true) × Proposed r source_rate requested default_rate x)
  unfolding candidates
  candidates_iff = (forth, back)
    where
      forth :
          Memᴰ x (candidates r source_rate requested default_rate)
          → (contains r x ≡ true) × Proposed r source_rate requested default_rate x
      forth m = elim ((add_rate_iff r x r.max _).0 m) [
        | inr e ↦ (keep r.max e.0 e.1, inr (inr (inr (inr e.0))))
        | inl m ↦ elim ((add_rate_iff r x r.min _).0 m) [
          | inr e ↦ (keep r.min e.0 e.1, inr (inr (inr (inl e.0))))
          | inl m ↦ elim ((add_rate_iff r x default_rate _).0 m) [
            | inr e ↦ (keep default_rate e.0 e.1, inr (inr (inl e.0)))
            | inl m ↦ elim ((add_requested_iff r x requested _).0 m) [
              | inr e ↦ (e.1, inr (inl e.0))
              | inl m ↦ elim ((add_rate_iff r x source_rate []).0 m) [
                | inr e ↦ (keep source_rate e.0 e.1, inl e.0)
                | inl m ↦ elim m [ ]
              ]
            ]
          ]
        ]
      ]

      back :
          (contains r x ≡ true) × Proposed r source_rate requested default_rate x
          → Memᴰ x (candidates r source_rate requested default_rate)
      back (h, inl e) = add_before r.max _ (
          add_before r.min _ (
            add_before default_rate _
              ((add_requested_iff r x requested _).1 (inl (add_here source_rate [] e h)))))
      back (h, inr (inl e)) = add_before r.max _ (
          add_before r.min _
            (add_before default_rate _ ((add_requested_iff r x requested _).1 (inr (e, h)))))
      back (h, inr (inr (inl e))) =
          add_before r.max _ (add_before r.min _ (add_here default_rate _ e h))
      back (h, inr (inr (inr (inl e)))) = add_before r.max _ (add_here r.min _ e h)
      back (h, inr (inr (inr (inr e)))) = add_here r.max _ e h
