-- ===== src/Extensions/Trust/Runs.antt =====
-- crates/around-extensions/src/trust.rs: the counter over a run of guarded operations.
use around.Base.{
  ℕ, ◌+◌, ◌-◌, ◌^◌, ◌≤◌, ◌<◌, Bool, true, false, ◌≡◌, ◌↔◌, refl, arith, List, [], ◌∷◌, length,
}
use around.Extensions.Trust.{
  TrustCounter, new_counter, record_success, reset, record_guarded_outcome, is_trusted,
}

-- The counter after the outcomes, the last one first.
unfoldable pub after : List Bool → ℕ → TrustCounter
after [] required = new_counter required
after (outcome ∷ earlier) required = (record_guarded_outcome outcome (after earlier required)).1

-- How many of the last outcomes were successes without a crash between them.
unfoldable pub streak : List Bool → ℕ
streak [] = 0
streak (true ∷ earlier) = streak earlier + 1
streak (false ∷ earlier) = 0

streak_bound : (outcomes : List Bool) → streak outcomes ≤ length outcomes
unfolding streak
streak_bound [] = ground arith
streak_bound (true ∷ earlier) = ground (arith, streak_bound earlier)
streak_bound (false ∷ earlier) = ground arith

counts :
    (outcomes : List Bool) (required : ℕ)
    → length outcomes < 2 ^ 32
    → ((after outcomes required).successes ≡ streak outcomes)
      × ((after outcomes required).required ≡ required)
unfolding after streak new_counter record_guarded_outcome record_success reset
counts [] required short = (refl, refl)
counts (true ∷ earlier) required short =
    let h = counts earlier required (omega (arith, short)) in
    (omega (arith, h, short, streak_bound earlier), h.1)
counts (false ∷ earlier) required short = (refl, (counts earlier required (omega (arith, short))).1)

-- An extension is trusted exactly when its last operations include the required number of successes
-- in a row, as long as fewer than 2^32 operations have run.
pub is_trusted_iff :
    (outcomes : List Bool) (required : ℕ)
    → length outcomes < 2 ^ 32
    → (is_trusted (after outcomes required) ≡ true) ↔ (required ≤ streak outcomes)
unfolding is_trusted
is_trusted_iff outcomes required short =
    let h = counts outcomes required short in (λ t. ground (arith, h), λ r. ground (arith, h))

-- The success after 2^32 - 1 others in a row makes the counter 0, so that the register is not trusted
-- any more.
pub record_success_wraps :
    (c : TrustCounter)
    → 0 < c.required
    → c.successes ≡ 2 ^ 32 - 1
    → is_trusted (record_success c).1 ≡ false
unfolding record_success is_trusted
record_success_wraps c positive full = ground (arith, full)
