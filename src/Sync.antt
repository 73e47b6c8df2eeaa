-- ===== src/Sync.antt =====
-- Go's sync.RWMutex, and goroutines that share one. A goroutine is the calls that it has still to make; the
-- mutex's state is who holds it. A schedule is any order of the goroutines' steps, so also those that
-- let a reader pass a waiting writer.
use peer_mesh.Prelude.{ℕ, ◌≡◌, ◌≢◌, refl, List, ◌∷◌}
use mathlib.Core.Logic.{ite, if_neg, if_pos}
use native.Mathlib.Decide.{ℕ_discrete}

pub data Call : Type 0 where
  lock unlock rlock runlock work : Call

pub data Mode : Type 0 where
  out reads writes : Mode

pub record Goroutine : Type 0 where
  pub mode : Mode
  pub calls : List Call

abbrev pub begins : List Call → Goroutine
begins calls = record { mode = out; calls = calls }

abbrev pub System : Type 0
System = ℕ → Goroutine

abbrev pub update : System → ℕ → Goroutine → System
update s i g j = ite (ℕ_discrete i j) g (s j)

abbrev pub IsFree : System → Type 0
IsFree s = (j : ℕ) → (s j).mode ≡ out

abbrev pub HasNoWriter : System → Type 0
HasNoWriter s = (j : ℕ) → (s j).mode ≢ writes

-- What the goroutine's next call does, if the mutex lets it.
pub data Move (s : System) (g h : Goroutine) : Type 0 where
  locks :
      (rest : List Call)
      → g.calls ≡ lock ∷ rest
      → IsFree s
      → h ≡ record { mode = writes; calls = rest }
      → Move s g h
  unlocks :
      (rest : List Call)
      → g.calls ≡ unlock ∷ rest
      → g.mode ≡ writes
      → h ≡ record { mode = out; calls = rest }
      → Move s g h
  rlocks :
      (rest : List Call)
      → g.calls ≡ rlock ∷ rest
      → HasNoWriter s
      → h ≡ record { mode = reads; calls = rest }
      → Move s g h
  runlocks :
      (rest : List Call)
      → g.calls ≡ runlock ∷ rest
      → g.mode ≡ reads
      → h ≡ record { mode = out; calls = rest }
      → Move s g h
  works :
      (rest : List Call)
      → g.calls ≡ work ∷ rest
      → h ≡ record { mode = g.mode; calls = rest }
      → Move s g h

pub data Step (s : System) : System → Type 0 where
  pick : (i : ℕ) {h : Goroutine} → Move s (s i) h → Step s (update s i h)

pub data Reach (s : System) : System → Type 0 where
  here : Reach s s
  next : {t u : System} → Reach s t → Step t u → Reach s u

pub update_ne : (s : System) (k i : ℕ) (g : Goroutine) → k ≢ i → update s k g i ≡ s i
update_ne s k i g ne = rw (if_neg _ ne) refl

pub update_eq : (s : System) (k i : ℕ) (g : Goroutine) → k ≡ i → update s k g i ≡ g
update_eq s k i g e = rw (if_pos _ e) refl
