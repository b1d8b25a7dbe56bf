-- ===== src/Extensions/Claims.antt =====
-- crates/around-extensions/src/lib.rs: the claims on names that `load` holds while it works.
use around.Base.{
  ℕ, suc, ◌<◌, ◌≤◌, true, false, if◌then◌else◌, List, [], ◌∷◌, ◌≡◌, refl, sym, ap, subst, inl, inr,
  Bool-cases, arith,
}
use around.Base.Text.{Text, text_eq, text_eq_iff}
use around.Base.Dict.{text_eq_self}
use around.Extensions.State.{contains, without}

-- How many of the names are not being loaded.
unfoldable pub unclaimed : List Text → List Text → ℕ
unclaimed [] loading = 0
unclaimed (name ∷ names) loading =
    if contains name loading then unclaimed names loading else suc (unclaimed names loading)

claim_le :
    (names loading : List Text) (name : Text)
    → unclaimed names (name ∷ loading) ≤ unclaimed names loading
unfolding unclaimed contains
claim_le [] loading name = omega arith
claim_le (other ∷ names) loading name = ground (arith, claim_le names loading name)

-- A claim on one of the names lowers the number.
pub claim_lt :
    (names loading : List Text) (name : Text)
    → contains name names ≡ true
    → contains name loading ≡ false
    → unclaimed names (name ∷ loading) < unclaimed names loading
unfolding unclaimed contains
claim_lt [] loading name there free = cc
claim_lt (other ∷ names) loading name there free = elim (Bool-cases (text_eq other name)) [
  | inl same ↦
      let e : other ≡ name = (text_eq_iff other name).0 same in
      let back : text_eq name other ≡ true = (text_eq_iff name other).1 (sym e) in
      let free' : contains other loading ≡ false =
        subst (λ n. contains n loading ≡ false) (sym e) free in
      rw (back, free') (omega (arith, claim_le names loading name))
  | inr different ↦
      ground (arith, different, claim_lt names loading name (ground (arith, different, there)) free)
]

without-absent :
    (name : Text) (loading : List Text)
    → contains name loading ≡ false
    → without name loading ≡ loading
unfolding without contains
without-absent name [] free = refl
without-absent name (other ∷ loading) free = elim (Bool-cases (text_eq other name)) [
  | inl same ↦ absurd (ground (arith, same, free))
  | inr different ↦
      rw different
        (ap (λ ns. other ∷ ns) (without-absent name loading (ground (arith, different, free))))
]

-- The claim is what `unclaim` takes away.
pub without_claim :
    (name : Text) (loading : List Text)
    → contains name loading ≡ false
    → without name (name ∷ loading) ≡ loading
unfolding without
without_claim name loading free = rw (text_eq_self name) (without-absent name loading free)
