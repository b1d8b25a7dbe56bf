-- ===== src/Base/Int.antt =====
-- Signed machine integers (i16, i32, i64) as integers over the native numbers.
use Prim.Native.Nat.{ℕ, compare, Ordering}
use native.Mathlib.Omega.{arith}
use around.Base.Compare.{IsCompare}

-- `negsuc n` is -(n + 1).
pub data ℤ : Type 0 where
  pos : ℕ → ℤ
  negsuc : ℕ → ℤ

unfoldable pub compare_ℤ : ℤ → ℤ → Ordering
compare_ℤ (pos a) (pos b) = compare a b
compare_ℤ (pos a) (negsuc b) = Ordering.gt
compare_ℤ (negsuc a) (pos b) = Ordering.lt
compare_ℤ (negsuc a) (negsuc b) = compare b a

pub compare_ℤ-IsCompare : IsCompare compare_ℤ
unfolding compare_ℤ
compare_ℤ-IsCompare = record {
  swap = λ a b. ground arith;
  lt_trans = λ a b d p q. ground arith;
  eq_left = λ a b d p. ground arith;
}
