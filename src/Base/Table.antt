-- ===== src/Base/Table.antt =====
-- A `HashMap` with number keys as an association list. The laws say what each entry is afterwards.
use Prim.Native.Nat.{ℕ}
use mathlib.Core.Path.{◌≡◌, refl}
use mathlib.Core.Option.{Option, none, some}
use mathlib.Core.List.{List, [], ◌∷◌}
use native.Mathlib.Omega.{arith}
use around.Base.Tests.{◌==◌, if◌then◌else◌}

abbrev pub Table {ℓ} : Type ℓ → Type ℓ
Table V = List (ℕ × V)

abbrev pub map_option {ℓ κ} : {A : Type ℓ} {B : Type κ} → (A → B) → Option A → Option B
map_option f none = none
map_option f (some a) = some (f a)

module _ {ℓ} {V : Type ℓ} where
  unfoldable pub lookup : ℕ → Table V → Option V
  lookup wanted ((key, value) ∷ rest) = if key == wanted then some value else lookup wanted rest
  lookup wanted [] = none

  -- A new key goes to the end.
  unfoldable pub insert : ℕ → V → Table V → Table V
  insert key new ((other, old) ∷ rest) =
      if other == key then (key, new) ∷ rest else (other, old) ∷ insert key new rest
  insert key new [] = (key, new) ∷ []

  -- What `get_mut` is used for: the value at `k`, if there is one, is changed in place.
  unfoldable pub update : ℕ → (V → V) → Table V → Table V
  update k f [] = []
  update k f ((j, v) ∷ m) = if j == k then (j, f v) ∷ m else (j, v) ∷ update k f m

  unfoldable pub remove : ℕ → Table V → Table V
  remove k [] = []
  remove k ((j, v) ∷ m) = let rest = remove k m in if j == k then rest else (j, v) ∷ rest

  -- `for v in map.values()`, each changed in place.
  unfoldable pub update_all : (V → V) → Table V → Table V
  update_all f [] = []
  update_all f ((j, v) ∷ m) = (j, f v) ∷ update_all f m

  pub lookup-insert :
      (at key : ℕ) (new : V) (m : Table V)
      → lookup at (insert key new m) ≡ (if key == at then some new else lookup at m)
  unfolding lookup insert
  lookup-insert at key new ((other, old) ∷ rest) = ground (arith, lookup-insert at key new rest)
  lookup-insert at key new [] = refl

  pub lookup-update :
      (j k : ℕ) (f : V → V) (m : Table V)
      → lookup j (update k f m) ≡ (if k == j then map_option f (lookup j m) else lookup j m)
  unfolding lookup update
  lookup-update j k f [] = ground arith
  lookup-update j k f ((i, w) ∷ m) = ground (arith, lookup-update j k f m)

  pub lookup-remove :
      (j k : ℕ) (m : Table V) → lookup j (remove k m) ≡ (if k == j then none else lookup j m)
  unfolding lookup remove
  lookup-remove j k [] = ground arith
  lookup-remove j k ((i, w) ∷ m) = ground (arith, lookup-remove j k m)

  pub lookup-update_all :
      (j : ℕ) (f : V → V) (m : Table V) → lookup j (update_all f m) ≡ map_option f (lookup j m)
  unfolding lookup update_all
  lookup-update_all j f [] = refl
  lookup-update_all j f ((i, w) ∷ m) = ground (arith, lookup-update_all j f m)
