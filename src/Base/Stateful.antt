-- ===== src/Base/Stateful.antt =====
-- Steps over a state that may fail: the state is passed on, and the first error is kept.
use mathlib.Core.Bool.{Bool, true, false}
use around.Base.Results.{Result, ok, err}

abbrev pub go_on : {E C A B : Type 0} → (A → C → Result E B × C) → Result E A × C → Result E B × C
go_on f (ok a, c) = f a c
go_on f (err e, c) = (err e, c)

infixl 5 ◌>>=◌ ◌>>◌
abbrev pub ◌>>=◌ :
    {E C A B : Type 0} → (C → Result E A × C) → (A → C → Result E B × C) → C → Result E B × C
◌>>=◌ m f c = go_on f (m c)

abbrev pub ◌>>◌ :
    {E C B : Type 0} → (C → Result E (Unit {0}) × C) → (C → Result E B × C) → C → Result E B × C
m >> rest = m >>= λ done. rest

abbrev pub return : {E C A : Type 0} → A → C → Result E A × C
return a c = (ok a, c)

abbrev pub fail : {E C A : Type 0} → E → C → Result E A × C
fail e c = (err e, c)

-- `if !test { return Err(e) }`
abbrev pub demand : {E C : Type 0} → Bool → E → C → Result E (Unit {0}) × C
demand true e c = (ok tt, c)
demand false e c = (err e, c)

abbrev pub modify : {E C : Type 0} → (C → C) → C → Result E (Unit {0}) × C
modify f c = (ok tt, f c)
