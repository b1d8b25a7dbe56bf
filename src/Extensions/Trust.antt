-- ===== src/Extensions/Trust.antt =====
-- crates/around-extensions/src/trust.rs: the trust that an extension's register earns.
-- The counter is a `u32` whose `fetch_add` wraps around.
pub mod Runs
use around.Base.{ℕ, ◌+◌, ◌%◌, ◌^◌, Bool, true, false, leb, if◌then◌else◌}

pub data TrustLevel : Type 0 where
  untrusted : TrustLevel
  probation : (successes required : ℕ) → TrustLevel
  trusted : TrustLevel

pub record TrustCounter : Type 0 where
  pub successes : ℕ
  pub required : ℕ

-- `TrustCounter::new`
unfoldable pub new_counter : ℕ → TrustCounter
new_counter required = record { successes = 0; required = required }

-- `fetch_add`
abbrev pub add_one : ℕ → ℕ
add_one n = (n + 1) % 2 ^ 32

unfoldable pub record_success : TrustCounter → TrustLevel × TrustCounter
record_success c =
    let current : ℕ = add_one c.successes in
    (
      if leb c.required current then trusted else probation current c.required,
      record c { successes = current },
    )

unfoldable pub reset : TrustCounter → TrustCounter
reset c = record c { successes = 0 }

unfoldable pub record_guarded_outcome : Bool → TrustCounter → TrustLevel × TrustCounter
record_guarded_outcome true c = record_success c
record_guarded_outcome false c = (untrusted, reset c)

unfoldable pub is_trusted : TrustCounter → Bool
is_trusted c = leb c.required c.successes
