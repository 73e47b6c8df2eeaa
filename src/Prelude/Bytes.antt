-- ===== src/Prelude/Bytes.antt =====
-- Bytes and their tables.
use Prim.Native.Nat.{ℕ, zero, suc, ◌<◌, ◌+◌, ◌*◌, ◌^◌}
use mathlib.Core.Path.{◌≡◌}
use mathlib.Core.Bool.{Bool, true, ◌&&◌}
use mathlib.Core.List.{List, [], ◌∷◌}
use native.Mathlib.Omega.{arith}
use peer_mesh.Prelude.Lists.{length, get_or, set}

abbrev pub AreBytes : List ℕ → Type 0
AreBytes [] = Unit
AreBytes (x ∷ xs) = (x < 256) × AreBytes xs

pub set-AreBytes : (xs : List ℕ) (i v : ℕ) → AreBytes xs → v < 256 → AreBytes (set xs i v)
set-AreBytes [] i v b h = tt
set-AreBytes (x ∷ xs) zero v b h = (h, b.1)
set-AreBytes (x ∷ xs) (suc i) v b h = (b.0, set-AreBytes xs i v b.1 h)

pub get_or-lt : (xs : List ℕ) (i : ℕ) → AreBytes xs → get_or xs i 0 < 256
get_or-lt [] i b = omega arith
get_or-lt (x ∷ xs) zero b = b.0
get_or-lt (x ∷ xs) (suc i) b = get_or-lt xs i b.1

-- The number that bytes spell, the first byte the highest.
abbrev pub value : List ℕ → ℕ
value [] = 0
value (x ∷ xs) = x * 256 ^ length xs + value xs

-- A test on every number under a bound, by computation.
unfoldable pub all_below : ℕ → (ℕ → Bool) → Bool
all_below zero test = true
all_below (suc top) test = all_below top test && test top

pub all_below_sound :
    (bound : ℕ) (test : ℕ → Bool) (y : ℕ) → all_below bound test ≡ true → y < bound → test y ≡ true
unfolding all_below
all_below_sound zero test y all lt = absurd (omega arith)
all_below_sound (suc top) test y all lt = ground (arith, all_below_sound top test y)
