-- ===== src/Prelude/Results.antt =====
-- Results of Go functions: a value, an error, or a run-time panic.
use mathlib.Core.Path.{◌≡◌, refl}
use mathlib.Core.Option.{Option, none, some}

-- `(A, error)` of a function that cannot panic.
pub data Result (E A : Type 0) : Type 0 where
  ok : A → Result E A
  err : E → Result E A

-- The same of a function that a failed type assertion or a slice out of range may stop.
pub data Outcome (E A : Type 0) : Type 0 where
  returns : A → Outcome E A
  fails : E → Outcome E A
  panics : Outcome E A

abbrev pub map_err : {E F A : Type 0} → (E → F) → Result E A → Result F A
map_err f (ok a) = ok a
map_err f (err e) = err (f e)

abbrev pub or_fail : {E A : Type 0} → Option A → E → Result E A
or_fail none e = err e
or_fail (some a) e = ok a

-- A call whose error ends the function.
abbrev pub ◌>>=◌ : {E A B : Type 0} → Result E A → (A → Result E B) → Result E B
err e >>= next = err e
ok a >>= next = next a

infixl 5 ◌>>=◌
-- What a chain that succeeds has gone through.
pub >>=-eq-ok :
    {E A B : Type 0} (call : Result E A) (next : A → Result E B) {b : B}
    → (call >>= next) ≡ ok b
    → (a : A) × (call ≡ ok a) × (next a ≡ ok b)
>>=-eq-ok (err e) next h = cc
>>=-eq-ok (ok a) next h = (a, refl, h)
