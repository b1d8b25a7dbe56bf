-- ===== src/Base/Loops.antt =====
-- `for` loops with an early return by `?`.
use Prim.Native.Nat.{ℕ, suc}
use mathlib.Core.Path.{◌≡◌, refl}
use mathlib.Core.List.{List, [], ◌∷◌, Memᴰ}
use mathlib.Core.Logic.{inl, inr}
use around.Base.Results.{Result, ok, err, ◌>>=◌, >>=-eq-err}

-- `for x in xs { s = body(x, s)? }`
unfoldable pub for_each {ℓ κ μ} :
    {E : Type ℓ} {A : Type κ} {S : Type μ} → (A → S → Result E S) → List A → S → Result E S
for_each body [] s = ok s
for_each body (x ∷ xs) s = body x s >>= for_each body xs

-- `xs.iter().enumerate()`, counting from `i`.
abbrev pub enumerate_from {ℓ} : {A : Type ℓ} → ℕ → List A → List (ℕ × A)
enumerate_from i [] = []
enumerate_from i (x ∷ xs) = (i, x) ∷ enumerate_from (suc i) xs

-- A loop's error is the error of one of its rounds.
pub for_each-err {ℓ κ μ} :
    {E : Type ℓ} {A : Type κ} {S : Type μ} (body : A → S → Result E S) (xs : List A) (s : S) (e : E)
    → for_each body xs s ≡ err e
    → (a : A) × (t : S) × Memᴰ a xs × (body a t ≡ err e)
unfolding for_each
for_each-err body [] s e h = cc
for_each-err body (x ∷ xs) s e h = elim (>>=-eq-err (body x s) (for_each body xs) h) [
  | inl now ↦ (x, s, Memᴰ.head refl, now)
  | inr (t, _, later) ↦
      let (a, u, m, failed) = for_each-err body xs t e later in (a, u, Memᴰ.tail m, failed)
]
