-- ===== src/Extensions/Tests.antt =====
-- Runs of crates/around-extensions/src/trust.rs.
use around.Base.{◌≤◌, true, false, ◌≡◌, ◌↔◌, refl, arith, [], ◌∷◌}
use around.Extensions.Trust.{TrustCounter, is_trusted, record_success}
use around.Extensions.Trust.Runs.{after, streak, is_trusted_iff, record_success_wraps}

is_trusted_iff_example :
    (is_trusted (after (true ∷ true ∷ false ∷ true ∷ []) 2) ≡ true)
    ↔ (2 ≤ streak (true ∷ true ∷ false ∷ true ∷ []))
is_trusted_iff_example = is_trusted_iff (true ∷ true ∷ false ∷ true ∷ []) 2 (ground arith)

abbrev full : TrustCounter
full = record { successes = 4294967295; required = 100 }

record_success_wraps_example : is_trusted (record_success full).1 ≡ false
record_success_wraps_example = record_success_wraps full (ground arith) refl
