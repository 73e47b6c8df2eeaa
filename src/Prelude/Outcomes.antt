-- ===== src/Prelude/Outcomes.antt =====
-- Chains of calls that may fail or panic.
use mathlib.Core.Option.{Option, none, some}
use peer_mesh.Prelude.Results.{Outcome, returns, fails, panics}

abbrev pub ◌>>=◌ : {E A B : Type 0} → Outcome E A → (A → Outcome E B) → Outcome E B
panics >>= next = panics
fails e >>= next = fails e
returns a >>= next = next a

infixl 5 ◌>>=◌
-- `v, ok := x.(T)` with an error if it is not ok, and `x.(T)`, which then panics.
abbrev pub checked : {E A : Type 0} → Option A → E → Outcome E A
checked none e = fails e
checked (some a) e = returns a

abbrev pub asserted : {E A : Type 0} → Option A → Outcome E A
asserted none = panics
asserted (some a) = returns a
