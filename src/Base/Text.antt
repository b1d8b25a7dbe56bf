-- ===== src/Base/Text.antt =====
-- Rust's `String` and `&str` as the list of their UTF-8 bytes, which is how they are compared.
use Prim.Native.Nat.{ℕ, compare, Ordering}
use mathlib.Core.Path.{◌≡◌, refl}
use mathlib.Core.Bool.{Bool, true, false}
use mathlib.Core.Logic.{◌↔◌}
use mathlib.Core.List.{List, [], ◌∷◌}
use native.Mathlib.Omega.{arith}
use around.Base.Compare.{IsCompare, flip, then_with}

abbrev pub Text : Type 0
Text = List ℕ

unfoldable pub compare_text : Text → Text → Ordering
compare_text [] [] = Ordering.eq
compare_text [] (y ∷ ys) = Ordering.lt
compare_text (x ∷ xs) [] = Ordering.gt
compare_text (x ∷ xs) (y ∷ ys) = then_with (compare x y) (compare_text xs ys)

compare_text-swap : (s t : Text) → compare_text t s ≡ flip (compare_text s t)
unfolding compare_text
compare_text-swap [] [] = refl
compare_text-swap [] (y ∷ ys) = refl
compare_text-swap (x ∷ xs) [] = refl
compare_text-swap (x ∷ xs) (y ∷ ys) = ground (arith, compare_text-swap xs ys)

-- Texts that compare as equal are the same.
pub compare_text-eq : (s t : Text) → compare_text s t ≡ Ordering.eq → s ≡ t
unfolding compare_text
compare_text-eq [] [] h = refl
compare_text-eq [] (y ∷ ys) h = cc
compare_text-eq (x ∷ xs) [] h = cc
compare_text-eq (x ∷ xs) (y ∷ ys) h = ground (arith, compare_text-eq xs ys)

pub compare_text_self : (s : Text) → compare_text s s ≡ Ordering.eq
unfolding compare_text
compare_text_self [] = refl
compare_text_self (x ∷ xs) = ground (arith, compare_text_self xs)

compare_text_trans :
    (r s t : Text)
    → compare_text r s ≡ Ordering.lt
    → compare_text s t ≡ Ordering.lt
    → compare_text r t ≡ Ordering.lt
unfolding compare_text
compare_text_trans [] [] t p q = cc
compare_text_trans [] (y ∷ ys) [] p q = cc
compare_text_trans [] (y ∷ ys) (z ∷ zs) p q = refl
compare_text_trans (x ∷ xs) [] t p q = cc
compare_text_trans (x ∷ xs) (y ∷ ys) [] p q = cc
compare_text_trans (x ∷ xs) (y ∷ ys) (z ∷ zs) p q = ground (arith, compare_text_trans xs ys zs)

pub compare_text-IsCompare : IsCompare compare_text
compare_text-IsCompare = record {
  swap = compare_text-swap;
  lt_trans = compare_text_trans;
  eq_left = λ a b d p. rw (compare_text-eq a b p);
}

abbrev pub text_eq : Text → Text → Bool
text_eq s t = elim (compare_text s t) [ Ordering.eq ↦ true | _ ↦ false ]

-- `s >= t`
abbrev pub is_ge : Text → Text → Bool
is_ge s t = elim (compare_text s t) [ Ordering.lt ↦ false | _ ↦ true ]

pub text_eq_iff : (s t : Text) → (text_eq s t ≡ true) ↔ (s ≡ t)
text_eq_iff s t =
    (λ h. compare_text-eq s t (ground arith), λ e. rw e (ground (arith, compare_text_self t)))
