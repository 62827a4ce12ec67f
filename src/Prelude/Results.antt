-- ===== src/Prelude/Results.antt =====
-- `Result`: a value, or the error that refused it.
use mathlib.Core.Path.{◌≡◌, refl}
use mathlib.Core.Logic.{◌⊎◌, inl, inr}

pub data Result (A E : Type 0) : Type 0 where
  ok : A → Result A E
  err : E → Result A E

pub Result-cases :
    {A E : Type 0} (r : Result A E) → ((a : A) × (r ≡ ok a)) ⊎ ((e : E) × (r ≡ err e))
Result-cases (ok a) = inl (a, refl)
Result-cases (err e) = inr (e, refl)

-- The `?` operator.
abbrev pub and_then : {A B E : Type 0} → Result A E → (A → Result B E) → Result B E
and_then (err e) f = err e
and_then (ok a) f = f a
