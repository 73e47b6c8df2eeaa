-- ===== src/Prelude/Assoc.antt =====
-- Go's maps as association lists. The order of the list stands for an order of iteration.
use peer_mesh.Prelude.Tests.{Eq, ◌==◌, if◌then◌else◌}
use peer_mesh.Prelude.Lists.{length}
use Prim.Native.Nat.{◌+◌, ◌-◌, ◌<◌}
use mathlib.Core.Path.{◌≡◌, refl}
use mathlib.Core.Bool.{Bool, true, false}
use mathlib.Core.List.{List, [], ◌∷◌}
use mathlib.Core.Option.{Option, none, some}
use native.Mathlib.Omega.{arith}

abbrev pub Assoc {ℓ κ} : Type ℓ → Type κ → Type (ℓ ⊔ κ)
Assoc K V = List (K × V)

module _ {ℓ κ} {K : Type ℓ} {V : Type κ} ⦃e : Eq K⦄ where
  unfoldable pub lookup : K → Assoc K V → Option V
  lookup key ((k, found) ∷ rest) = if k == key then some found else lookup key rest
  lookup key [] = none

  -- An entry of the key is overwritten where it stands; a new one goes to the end.
  unfoldable pub insert : K → V → Assoc K V → Assoc K V
  insert key new ((k, old) ∷ rest) =
      if k == key then (key, new) ∷ rest else (k, old) ∷ insert key new rest
  insert key new [] = (key, new) ∷ []

  unfoldable pub erase : K → Assoc K V → Assoc K V
  erase k [] = []
  erase k ((j, w) ∷ m) = let rest = erase k m in if j == k then rest else (j, w) ∷ rest

  abbrev pub contains : K → Assoc K V → Bool
  contains k m = elim (lookup k m) [ none ↦ false | some v ↦ true ]

  -- No key stands twice.
  abbrev pub Distinct : Assoc K V → Type κ
  Distinct [] = Unit
  Distinct ((k, v) ∷ m) = (lookup k m ≡ none) × Distinct m

  pub lookup-insert :
      (key at : K) (new : V) (m : Assoc K V)
      → lookup at (insert key new m) ≡ (if key == at then some new else lookup at m)
  unfolding insert lookup
  lookup-insert key at new ((k, old) ∷ rest) =
      ground
        (arith, e.beq_iff key at, e.beq_iff k key, e.beq_iff k at, lookup-insert key at new rest)
  lookup-insert key at new [] = refl

  pub lookup-erase :
      (k j : K) (m : Assoc K V) → lookup j (erase k m) ≡ (if k == j then none else lookup j m)
  unfolding lookup erase
  lookup-erase k j [] = ground arith
  lookup-erase k j ((i, w) ∷ m) =
      ground (arith, e.beq_iff k j, e.beq_iff i k, e.beq_iff i j, lookup-erase k j m)

module _ {ℓ} {K : Type ℓ} ⦃e : Eq K⦄ where
  pub beq_self : (k : K) → (k == k) ≡ true
  beq_self k = (e.beq_iff k k).1 refl

module _ {ℓ κ} {K : Type ℓ} {V : Type κ} ⦃e : Eq K⦄ where
  pub length-insert :
      (k : K) (v : V) (m : Assoc K V)
      → length (insert k v m) ≡ (if contains k m then length m else length m + 1)
  unfolding lookup insert
  length-insert k v [] = omega arith
  length-insert k v ((j, w) ∷ m) = ground (arith, length-insert k v m)

  erase-of_none : (k : K) (m : Assoc K V) → lookup k m ≡ none → erase k m ≡ m
  unfolding lookup erase
  erase-of_none k [] h = refl
  erase-of_none k ((j, w) ∷ m) h = ground (arith, erase-of_none k m)

  pub length-pos : (k : K) (m : Assoc K V) → contains k m ≡ true → 0 < length m
  unfolding lookup
  length-pos k [] h = cc
  length-pos k ((i, x) ∷ m) h = omega arith

  pub length-erase :
      (k : K) (m : Assoc K V)
      → Distinct m
      → length (erase k m) ≡ (if contains k m then length m - 1 else length m)
  unfolding lookup erase
  length-erase k [] d = refl
  length-erase k ((j, w) ∷ m) d =
      ground (arith, e.beq_iff j k, length-erase k m d.1, erase-of_none k m, length-pos k m)

  pub insert-Distinct : (k : K) (v : V) (m : Assoc K V) → Distinct m → Distinct (insert k v m)
  unfolding lookup insert
  insert-Distinct k v [] d = (refl, tt)
  insert-Distinct k v ((j, w) ∷ m) d =
      ground (arith, e.beq_iff j k, e.beq_iff k j, lookup-insert k j v m, insert-Distinct k v m d.1)

  pub erase-Distinct : (k : K) (m : Assoc K V) → Distinct m → Distinct (erase k m)
  unfolding lookup erase
  erase-Distinct k [] d = tt
  erase-Distinct k ((j, w) ∷ m) d = ground (arith, lookup-erase k j m, erase-Distinct k m d.1)
