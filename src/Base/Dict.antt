-- ===== src/Base/Dict.antt =====
-- A `HashMap` with text keys as an association list. The order of its entries stands for the map's.
use mathlib.Core.Path.{◌≡◌, refl}
use mathlib.Core.Logic.{◌≢◌, inl, inr}
use mathlib.Core.Bool.{Bool, true, false}
use mathlib.Core.Option.{Option, none, some}
use mathlib.Core.List.{List, [], ◌∷◌}
use native.Mathlib.Omega.{arith}
use around.Base.Tests.{if◌then◌else◌, Bool-cases}
use around.Base.Text.{Text, text_eq, text_eq_iff}

abbrev pub Dict {ℓ} : Type ℓ → Type ℓ
Dict V = List (Text × V)

module _ {ℓ} {V : Type ℓ} where
  unfoldable pub find : Text → Dict V → Option V
  find wanted [] = none
  find wanted ((name, v) ∷ d) = if text_eq name wanted then some v else find wanted d

  -- A new name goes to the end.
  unfoldable pub put : Text → V → Dict V → Dict V
  put name v [] = (name, v) ∷ []
  put name v ((other, w) ∷ d) =
      if text_eq other name then (name, v) ∷ d else (other, w) ∷ put name v d

  unfoldable pub delete : Text → Dict V → Dict V
  delete name [] = []
  delete name ((other, w) ∷ d) =
      if text_eq other name then delete name d else (other, w) ∷ delete name d

  -- `retain`
  unfoldable pub retain : (Text → V → Bool) → Dict V → Dict V
  retain keep [] = []
  retain keep ((name, v) ∷ d) = if keep name v then (name, v) ∷ retain keep d else retain keep d

-- `contains_key` on what `find` answers.
unfoldable pub is_there {ℓ} : {A : Type ℓ} → Option A → Bool
is_there none = false
is_there (some a) = true

pub text_eq_self : (s : Text) → text_eq s s ≡ true
text_eq_self s = (text_eq_iff s s).1 refl

pub text_ne : {s t : Text} → s ≢ t → text_eq s t ≡ false
text_ne {s} {t} ne = elim (Bool-cases (text_eq s t)) [
  | inl same ↦ absurd (ne ((text_eq_iff s t).0 same))
  | inr other ↦ other
]

module _ {ℓ} {V : Type ℓ} where
  pub find-put :
      (at name : Text) (v : V) (d : Dict V)
      → find at (put name v d) ≡ (if text_eq name at then some v else find at d)
  unfolding find put
  find-put at name v [] = refl
  find-put at name v ((other, w) ∷ d) = ground (
    arith,
    text_eq_iff other name,
    text_eq_iff other at,
    text_eq_iff name at,
    find-put at name v d,
  )

  pub find-delete :
      (at name : Text) (d : Dict V)
      → find at (delete name d) ≡ (if text_eq name at then none else find at d)
  unfolding find delete
  find-delete at name [] = ground arith
  find-delete at name ((other, w) ∷ d) = ground (
    arith,
    text_eq_iff other name,
    text_eq_iff other at,
    text_eq_iff name at,
    find-delete at name d,
  )
