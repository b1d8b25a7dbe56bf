-- ===== src/Base/Compare.antt =====
-- `std::cmp::Ordering` and the orders that comparison functions define.
use Prim.Native.Nat.{compare, Ordering}
use mathlib.Core.Path.{◌≡◌, refl}
use mathlib.Core.Logic.{◌≢◌, ◌⊎◌, inl, inr}
use mathlib.Core.Bool.{Bool, true, false}
use native.Mathlib.Omega.{arith}

abbrev pub flip : Ordering → Ordering
flip Ordering.lt = Ordering.gt
flip Ordering.eq = Ordering.eq
flip Ordering.gt = Ordering.lt

-- `Ordering::then`: the first that is not `Equal` decides.
abbrev pub then_with : Ordering → Ordering → Ordering
then_with Ordering.lt b = Ordering.lt
then_with Ordering.eq b = b
then_with Ordering.gt b = Ordering.gt

-- A comparison that is total and transitive; equal values are interchangeable on the left.
pub record IsCompare {ℓ} {A : Type ℓ} (c : A → A → Ordering) : Type ℓ where
  pub swap : (a b : A) → c b a ≡ flip (c a b)
  pub lt_trans : (a b d : A) → c a b ≡ Ordering.lt → c b d ≡ Ordering.lt → c a d ≡ Ordering.lt
  pub eq_left : (a b d : A) → c a b ≡ Ordering.eq → c a d ≡ c b d

pub compare-IsCompare : IsCompare compare
compare-IsCompare = record {
  swap = λ a b. ground arith;
  lt_trans = λ a b d p q. ground arith;
  eq_left = λ a b d p. ground arith;
}

module _ {ℓ} {A : Type ℓ} where
  -- A tuple's comparison: by the first parts, and by the others where those are equal.
  abbrev pub lex : (A → A → Ordering) → (A → A → Ordering) → A → A → Ordering
  lex c d a b = then_with (c a b) (d a b)

  -- `std::cmp::Reverse`
  abbrev pub reverse : (A → A → Ordering) → A → A → Ordering
  reverse c a b = c b a

  abbrev pub on {κ} : {B : Type κ} → (A → B) → (B → B → Ordering) → A → A → Ordering
  on f c a b = c (f a) (f b)

module _ {ℓ} {A : Type ℓ} where
  pub eq_right :
      {c : A → A → Ordering} → IsCompare c → (a b d : A) → c a b ≡ Ordering.eq → c d a ≡ c d b
  eq_right {c} h a b d e = ground (arith, h.swap a d, h.swap b d, h.eq_left a b d e)

  pub lex-IsCompare : {c d : A → A → Ordering} → IsCompare c → IsCompare d → IsCompare (lex c d)
  lex-IsCompare {c} {d} hc hd = record {
    swap = λ x y. ground (arith, hc.swap x y, hd.swap x y);
    lt_trans = λ x y z p q. ground (
      arith,
      hc.lt_trans x y z,
      hc.eq_left x y z,
      eq_right hc y z x,
      hd.lt_trans x y z,
      hc.swap x y,
      hc.swap x z,
    );
    eq_left = λ x y z p. ground (arith, hc.eq_left x y z, hd.eq_left x y z);
  }

  pub reverse-IsCompare : {c : A → A → Ordering} → IsCompare c → IsCompare (reverse c)
  reverse-IsCompare {c} h = record {
    swap = λ a b. h.swap b a;
    lt_trans = λ a b d p q. h.lt_trans d b a q p;
    eq_left = λ a b d p. ground (arith, h.swap a b, eq_right h b a d);
  }

  pub on-IsCompare {κ} :
      {B : Type κ} (f : A → B) {c : B → B → Ordering} → IsCompare c → IsCompare (on f c)
  on-IsCompare f h = record {
    swap = λ a b. h.swap (f a) (f b);
    lt_trans = λ a b d. h.lt_trans (f a) (f b) (f d);
    eq_left = λ a b d. h.eq_left (f a) (f b) (f d);
  }

-- Whether a comparison answered `Ordering::Less`.
abbrev pub is_less : Ordering → Bool
is_less Ordering.lt = true
is_less _ = false

pub is_less-cases :
    (o : Ordering)
    → ((o ≡ Ordering.lt) × (is_less o ≡ true)) ⊎ ((o ≢ Ordering.lt) × (is_less o ≡ false))
is_less-cases Ordering.lt = inl (refl, refl)
is_less-cases Ordering.eq = inr (λ h. cc, refl)
is_less-cases Ordering.gt = inr (λ h. cc, refl)
