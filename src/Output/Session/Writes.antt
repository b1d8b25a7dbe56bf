-- ===== src/Output/Session/Writes.antt =====
-- crates/around-engine/src/output_session.rs: what reaches the device.
use native.Mathlib.Nat.{div-add-mod}
use around.Base.{
  ℕ, ◌*◌, ◌/◌, ◌%◌, true, false, ◌==◌, ==_iff, if◌then◌else◌, ◌≡◌, refl, sym, ◌∙◌, arith, inl, inr,
  ◌⊎◌, List, [], ◌∷◌, length, Result, ok, err, Bool-cases, ap, subst,
}
use around.Core.Spec.{spec_eq, bytes_per_frame}
use around.Core.Spec.Valid.{spec_eq_iff}
use around.Output.Session
use around.Output.Session.{
  MemoryOutputAdapter, OutputSession, OutputError, audio, write_failed, status, write, push_all,
  submit_blocks, submit_workspace,
}

-- The binding is open, its device is there, it takes the plan's format, and the chain's bytes are whole
-- frames of it.
pub record IsAccepted (a : MemoryOutputAdapter) (s : OutputSession) (bytes : List ℕ) : Type 0 where
  pub open_binding : s.binding.closed ≡ false
  pub there : a.lost ≡ false
  pub same_spec : s.plan.target_spec ≡ s.binding.spec
  pub whole : length bytes % bytes_per_frame s.binding.spec ≡ 0

-- Why a block is refused: the binding's state first, then the chain's own error, then the block.
pub record IsRefused (a : MemoryOutputAdapter) (s : OutputSession)
    (processed : Result OutputError (List ℕ)) (e : OutputError) : Type 0 where
  pub when_closed : s.binding.closed ≡ true → e ≡ Session.closed
  pub when_lost : s.binding.closed ≡ false → a.lost ≡ true → e ≡ Session.lost
  pub when_failed :
      s.binding.closed ≡ false → a.lost ≡ false → (x : OutputError) → processed ≡ err x → e ≡ x
  pub not_accepted : (bytes : List ℕ) → processed ≡ ok bytes → ¬ IsAccepted a s bytes

-- All that `submit_workspace` may do.
pub record Accepted (a : MemoryOutputAdapter) (s : OutputSession)
    (processed : Result OutputError (List ℕ)) : Type 0 where
  pub bytes : List ℕ
  pub from_chain : processed ≡ ok bytes
  pub accepted : IsAccepted a s bytes
  pub written :
      submit_workspace a s processed
      ≡ (ok (length bytes), push_all a (if s.binding.discard then [] else bytes ∷ []))

pub record Refused (a : MemoryOutputAdapter) (s : OutputSession)
    (processed : Result OutputError (List ℕ)) : Type 0 where
  pub failure : OutputError
  pub refused : IsRefused a s processed failure
  pub unchanged : submit_workspace a s processed ≡ (err failure, a)

true≢false : ¬ (true ≡ false)
true≢false h = cc

-- The type of the chain's answer.
abbrev chain : Result OutputError (List ℕ) → Result OutputError (List ℕ)
chain r = r

err≢ok : {x : OutputError} {bytes : List ℕ} → ¬ (chain (err x) ≡ chain (ok bytes))
err≢ok h = cc

err_inj : {x y : OutputError} → chain (err x) ≡ chain (err y) → x ≡ y
err_inj h = cc

ok_inj : {x y : List ℕ} → chain (ok x) ≡ chain (ok y) → x ≡ y
ok_inj h = cc

whole_frames : (n b : ℕ) → n % b ≡ 0 → n / b * b ≡ n
whole_frames n b none_left = omega (arith, div-add-mod n b, none_left)

refuse :
    (a : MemoryOutputAdapter) (s : OutputSession) (processed : Result OutputError (List ℕ))
    (e : OutputError)
    → IsRefused a s processed e
    → submit_blocks a s processed ≡ err e
    → Refused a s processed
unfolding submit_workspace
refuse a s processed e why h = record {
  failure = e;
  refused = why;
  unchanged = rw (h, submit_workspace) refl;
}

module _ (a : MemoryOutputAdapter) (s : OutputSession) (fresh : s.binding.closed ≡ false)
    (there : a.lost ≡ false) where
  chain_failed : (x : OutputError) → Refused a s (err x)
  unfolding submit_blocks status
  chain_failed x =
      refuse a s (err x) x
        (record {
          when_closed = λ c. absurd (true≢false (sym c ∙ fresh));
          when_lost = λ c g. absurd (true≢false (sym g ∙ there));
          when_failed = λ c g y same. err_inj same;
          not_accepted = λ bytes same. absurd (err≢ok same);
        })
        (simp (fresh, there) refl)

  module _ (bytes : List ℕ) where
    -- What the block's own checks find.
    blocked :
        (e : OutputError)
        → ¬ IsAccepted a s bytes
        → submit_blocks a s (ok bytes) ≡ err e
        → Refused a s (ok bytes)
    blocked e refutes h =
        refuse a s (ok bytes) e
          (record {
            when_closed = λ c. absurd (true≢false (sym c ∙ fresh));
            when_lost = λ c g. absurd (true≢false (sym g ∙ there));
            when_failed = λ c g y same. absurd (err≢ok (sym same));
            not_accepted = λ other same accepted.
                refutes (subst (λ b. IsAccepted a s b) (sym (ok_inj same)) accepted);
          })
          h

    abbrev target_bytes : ℕ
    target_bytes = bytes_per_frame s.plan.target_spec

    submit_blocks-accepted :
        IsAccepted a s bytes
        → submit_blocks a s (ok bytes)
          ≡ ok (length bytes, if s.binding.discard then [] else bytes ∷ [])
    unfolding submit_blocks status write
    submit_blocks-accepted fits =
        let target = s.plan.target_spec in
        let frames : (length bytes / target_bytes * target_bytes == length bytes) ≡ true =
          (==_iff _ _).1 (
            whole_frames (length bytes) target_bytes
              (ap (λ t. length bytes % bytes_per_frame t) fits.same_spec ∙ fits.whole)) in
        let spec : spec_eq target s.binding.spec ≡ true = (spec_eq_iff _ _).1 fits.same_spec in
        let whole : (length bytes % bytes_per_frame s.binding.spec == 0) ≡ true =
          (==_iff _ _).1 fits.whole in
        simp (fresh, there) (rw frames (rw spec (rw whole refl)))

    accepted : IsAccepted a s bytes → Accepted a s (ok bytes)
    unfolding submit_workspace
    accepted fits = record {
      bytes = bytes;
      from_chain = refl;
      accepted = fits;
      written = rw (submit_blocks-accepted fits, submit_workspace) refl;
    }

    misaligned :
        (length bytes / target_bytes * target_bytes == length bytes) ≡ false
        → Refused a s (ok bytes)
    unfolding submit_blocks status
    misaligned wrong =
        blocked audio
          (λ fits. absurd (
            true≢false (
              sym (
                (==_iff _ _).1 (
                  whole_frames (length bytes) target_bytes
                    (ap (λ t. length bytes % bytes_per_frame t) fits.same_spec ∙ fits.whole)))
              ∙ wrong)))
          (simp (fresh, there) (rw wrong refl))

    wrong_spec :
        (length bytes / target_bytes * target_bytes == length bytes) ≡ true
        → spec_eq s.plan.target_spec s.binding.spec ≡ false
        → Refused a s (ok bytes)
    unfolding submit_blocks status write
    wrong_spec frames differs =
        blocked write_failed
          (λ fits. absurd (true≢false (sym ((spec_eq_iff _ _).1 fits.same_spec) ∙ differs)))
          (simp (fresh, there) (rw frames (rw differs refl)))

    cut :
        (length bytes / target_bytes * target_bytes == length bytes) ≡ true
        → spec_eq s.plan.target_spec s.binding.spec ≡ true
        → (length bytes % bytes_per_frame s.binding.spec == 0) ≡ false
        → Refused a s (ok bytes)
    unfolding submit_blocks status write
    cut frames spec part =
        blocked write_failed (λ fits. absurd (true≢false (sym ((==_iff _ _).1 fits.whole) ∙ part)))
          (simp (fresh, there) (rw frames (rw spec (rw part refl))))

    block_cases : Accepted a s (ok bytes) ⊎ Refused a s (ok bytes)
    block_cases = elim (Bool-cases (length bytes / target_bytes * target_bytes == length bytes)) [
      | inr wrong ↦ inr (misaligned wrong)
      | inl frames ↦ elim (Bool-cases (spec_eq s.plan.target_spec s.binding.spec)) [
        | inr differs ↦ inr (wrong_spec frames differs)
        | inl spec ↦ elim (Bool-cases (length bytes % bytes_per_frame s.binding.spec == 0)) [
          | inr part ↦ inr (cut frames spec part)
          | inl whole ↦ inl (
              accepted (record {
                open_binding = fresh;
                there = there;
                same_spec = (spec_eq_iff _ _).0 spec;
                whole = (==_iff _ _).0 whole;
              }))
        ]
      ]
    ]

  chain_cases :
      (processed : Result OutputError (List ℕ)) → Accepted a s processed ⊎ Refused a s processed
  chain_cases (err x) = inr (chain_failed x)
  chain_cases (ok bytes) = block_cases bytes

-- A workspace is submitted exactly where the binding is open, its device is there, it takes the plan's
-- format and the chain has answered whole frames of it: they are then appended unchanged as one block,
-- or thrown away where the binding discards. Else nothing is written, and the error is the binding's
-- state, or the chain's own error where the binding is active.
pub submit_workspace_lem :
    (a : MemoryOutputAdapter) (s : OutputSession) (processed : Result OutputError (List ℕ))
    → Accepted a s processed ⊎ Refused a s processed
unfolding submit_blocks status
submit_workspace_lem a s processed = elim (Bool-cases s.binding.closed) [
  | inl gone ↦ inr (
      refuse a s processed Session.closed
        (record {
          when_closed = λ c. refl;
          when_lost = λ c. absurd (true≢false (sym gone ∙ c));
          when_failed = λ c. absurd (true≢false (sym gone ∙ c));
          not_accepted = λ bytes same fits. true≢false (sym gone ∙ fits.open_binding);
        })
        (simp gone refl))
  | inr fresh ↦ elim (Bool-cases a.lost) [
    | inl away ↦ inr (
        refuse a s processed Session.lost
          (record {
            when_closed = λ c. absurd (true≢false (sym c ∙ fresh));
            when_lost = λ c g. refl;
            when_failed = λ c g. absurd (true≢false (sym away ∙ g));
            not_accepted = λ bytes same fits. true≢false (sym away ∙ fits.there);
          })
          (simp (fresh, away) refl))
    | inr there ↦ chain_cases a s fresh there processed
  ]
]
