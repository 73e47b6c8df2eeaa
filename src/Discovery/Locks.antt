-- ===== src/Discovery/Locks.antt =====
-- The calls on the mutex, in their order, that src/internal/discovery/server.go and client.go make. `work` is
-- a call that waits for something else, such as a dial.
use peer_mesh.Prelude.{
  ℕ, ◌≡◌, ◌≢◌, refl, sym, subst, ◌∙◌, Bool, true, false, List, [], ◌∷◌, ◌++◌, ◌⊎◌, inl, inr,
  if◌then◌else◌,
}
use native.Mathlib.Decide.{ℕ_discrete}
use peer_mesh.Sync.{
  Call, lock, unlock, rlock, runlock, work, Mode, out, reads, writes, Goroutine, begins, System,
  update_ne, update_eq, Move, locks, unlocks, rlocks, runlocks, works, Step, pick, Reach, here,
  next,
}

-- Server.Stop, by whether the server runs: its deferred unlock comes last.
unfoldable pub stop_calls : Bool → List Call
stop_calls running = if running then lock ∷ lock ∷ unlock ∷ unlock ∷ [] else lock ∷ unlock ∷ []

-- Client.IsConnected
unfoldable pub is_connected_calls : List Call
is_connected_calls = rlock ∷ runlock ∷ []

-- Client.SendMessage
unfoldable pub send_message_calls : Bool → List Call
unfolding is_connected_calls
send_message_calls connected =
    if connected then is_connected_calls ++ lock ∷ work ∷ unlock ∷ [] else is_connected_calls

-- Client.Connect by whether it is connected, and whether the dial succeeds: then it registers.
unfoldable pub connect_calls : Bool → Bool → List Call
unfolding send_message_calls
connect_calls connected dials =
    if connected
    then lock ∷ unlock ∷ []
    else if dials
    then lock ∷ work ∷ send_message_calls true ++ unlock ∷ []
    else lock ∷ work ∷ unlock ∷ []

-- Waits for the mutex.
abbrev pub Waits : Goroutine → Type 0
Waits g = (rest : List Call) × ((g.calls ≡ lock ∷ rest) ⊎ (g.calls ≡ rlock ∷ rest))

-- Calls that take the mutex again before they give it back, from inside and from outside.
abbrev LocksItself : List Call → Type 0
LocksItself (lock ∷ rest) = Unit
LocksItself (rlock ∷ rest) = Unit
LocksItself (work ∷ rest) = LocksItself rest
LocksItself rest = ⊥

abbrev WillLock : List Call → Type 0
WillLock (lock ∷ rest) = LocksItself rest
WillLock (work ∷ rest) = WillLock rest
WillLock rest = ⊥

abbrev IsDoomed : Mode → List Call → Type 0
IsDoomed out calls = WillLock calls
IsDoomed reads calls = ⊥
IsDoomed writes calls = LocksItself calls

LocksItself-not_over : (calls : List Call) → LocksItself calls → calls ≢ []
LocksItself-not_over [] l e = l
LocksItself-not_over (c ∷ calls) l e = cc

-- No call of a goroutine that waits gets through while another one, or itself, writes.
waiting_stays :
    (s : System) (i : ℕ) (g h : Goroutine) → (s i).mode ≡ writes → Waits g → ¬ Move s g h
waiting_stays s i g h held w (locks rest e free q) = cc (free i, held)
waiting_stays s i g h held w (rlocks rest e none_writes q) = none_writes i held
waiting_stays s i g h held (r, inl e) (unlocks rest e' m q) = cc
waiting_stays s i g h held (r, inr e) (unlocks rest e' m q) = cc
waiting_stays s i g h held (r, inl e) (runlocks rest e' m q) = cc
waiting_stays s i g h held (r, inr e) (runlocks rest e' m q) = cc
waiting_stays s i g h held (r, inl e) (works rest e' q) = cc
waiting_stays s i g h held (r, inr e) (works rest e' q) = cc

recast : (m n : Mode) (c d : List Call) → m ≡ n → c ≡ d → IsDoomed m c → IsDoomed n d
recast m n c d p q t = subst (λ x. IsDoomed x d) p (subst (IsDoomed m) q t)

unlock-IsDoomed : (m : Mode) (rest : List Call) → ¬ IsDoomed m (unlock ∷ rest)
unlock-IsDoomed out rest d = d
unlock-IsDoomed reads rest d = d
unlock-IsDoomed writes rest d = d

runlock-IsDoomed : (m : Mode) (rest : List Call) → ¬ IsDoomed m (runlock ∷ rest)
runlock-IsDoomed out rest d = d
runlock-IsDoomed reads rest d = d
runlock-IsDoomed writes rest d = d

rlock-IsDoomed : (m : Mode) (rest : List Call) → m ≢ writes → ¬ IsDoomed m (rlock ∷ rest)
rlock-IsDoomed out rest ne d = d
rlock-IsDoomed reads rest ne d = d
rlock-IsDoomed writes rest ne d = ne refl

work-IsDoomed : (m : Mode) (rest : List Call) → IsDoomed m (work ∷ rest) → IsDoomed m rest
work-IsDoomed out rest d = d
work-IsDoomed reads rest d = d
work-IsDoomed writes rest d = d

Keeps : Goroutine → Goroutine → Type 0
Keeps g h = IsDoomed h.mode h.calls × ((g.mode ≡ writes) → h.mode ≡ writes)

-- A doomed goroutine's own step.
Move-IsDoomed :
    (s : System) (i : ℕ) (h : Goroutine)
    → Move s (s i) h
    → IsDoomed (s i).mode (s i).calls
    → Keeps (s i) h
unfolding Keeps
Move-IsDoomed s i h (locks rest e free q) d = rw q (recast _ _ _ _ (free i) e d, λ w. refl)
Move-IsDoomed s i h (unlocks rest e m q) d =
    absurd (unlock-IsDoomed _ rest (recast _ _ _ _ refl e d))
Move-IsDoomed s i h (rlocks rest e none_writes q) d =
    absurd (rlock-IsDoomed _ rest (none_writes i) (recast _ _ _ _ refl e d))
Move-IsDoomed s i h (runlocks rest e m q) d =
    absurd (runlock-IsDoomed _ rest (recast _ _ _ _ refl e d))
Move-IsDoomed s i h (works rest e q) d =
    rw q (work-IsDoomed _ rest (recast _ _ _ _ refl e d), λ w. w)

Step-IsDoomed :
    (s t : System) (i : ℕ) → Step s t → IsDoomed (s i).mode (s i).calls → Keeps (s i) (t i)
unfolding Keeps
Step-IsDoomed s _ i (pick k {h} m) d = elim (ℕ_discrete k i) [
  | yes e ↦ subst (Keeps (s i)) (sym (update_eq s k i h e)) (
      subst (λ x. Keeps (s x) h) e
        (Move-IsDoomed s k h m (subst (λ x. IsDoomed (s x).mode (s x).calls) (sym e) d)))
  | no ne ↦ subst (Keeps (s i)) (sym (update_ne s k i h ne)) (d, λ w. w)
]

Reach-IsDoomed :
    (s : System) (i : ℕ) {t : System}
    → Reach s t
    → IsDoomed (s i).mode (s i).calls
    → Keeps (s i) (t i)
unfolding Keeps
Reach-IsDoomed s i here d = (d, λ w. w)
Reach-IsDoomed s i (next {t} {u} r st) d =
    let (kept, still) = Reach-IsDoomed s i r d in
    let (kept', still') = Step-IsDoomed t u i st kept in (kept', λ w. still' (still w))

Step-Waits : (s t : System) (i j : ℕ) → Step s t → (s i).mode ≡ writes → Waits (s j) → t j ≡ s j
Step-Waits s _ i j (pick k {h} m) held w = elim (ℕ_discrete k j) [
  | yes e ↦ absurd (waiting_stays s i (s k) h held (subst (λ x. Waits (s x)) (sym e) w) m)
  | no ne ↦ update_ne s k j h ne
]

-- While a doomed goroutine writes, one that waits stays where it is.
Reach-Waits :
    (s : System) (i j : ℕ) {t : System}
    → Reach s t
    → IsDoomed (s i).mode (s i).calls
    → (s i).mode ≡ writes
    → Waits (s j)
    → t j ≡ s j
unfolding Keeps
Reach-Waits s i j here d held w = refl
Reach-Waits s i j (next {t} {u} r st) d held w =
    let same = Reach-Waits s i j r d held w in
    let (kept, still) = Reach-IsDoomed s i r d in
    Step-Waits t u i j st (still held) (subst Waits (sym same) w) ∙ same

module _ (calls : List Call) (doomed : WillLock calls) (s : System) (i j : ℕ) (t u : System)
    (starts : s i ≡ begins calls) (before : Reach s t) (locked : (t i).mode ≡ writes)
    (waits : Waits (t j)) (after : Reach t u) where
  never_over : ((u i).calls ≢ []) × (u j ≡ t j)
  unfolding Keeps
  never_over =
      let (at_t, _) =
        Reach-IsDoomed s i before (subst (λ g. IsDoomed g.mode g.calls) (sym starts) doomed) in
      let (at_u, still) = Reach-IsDoomed t i after at_t in
      (
        LocksItself-not_over (u i).calls (recast _ _ _ _ (still locked) refl at_u),
        Reach-Waits t i j after at_t locked waits,
      )

-- Whatever the other goroutines do: once Stop of a running server has taken the server's mutex, it never
-- returns, and each goroutine that waits for the mutex waits for ever.
pub stop_calls-block :
    (s : System) (i j : ℕ) (t u : System)
    → s i ≡ begins (stop_calls true)
    → Reach s t
    → (t i).mode ≡ writes
    → Waits (t j)
    → Reach t u
    → ((u i).calls ≢ []) × (u j ≡ t j)
unfolding stop_calls
stop_calls-block s i j t u = never_over (stop_calls true) tt s i j t u

-- Whatever the other goroutines do: once Connect of a client that is not connected has taken the client's
-- mutex and its dial succeeds, it never returns, and each goroutine that waits for the mutex waits
-- for ever.
pub connect_calls-block :
    (s : System) (i j : ℕ) (t u : System)
    → s i ≡ begins (connect_calls false true)
    → Reach s t
    → (t i).mode ≡ writes
    → Waits (t j)
    → Reach t u
    → ((u i).calls ≢ []) × (u j ≡ t j)
unfolding connect_calls
connect_calls-block s i j t u = never_over (connect_calls false true) tt s i j t u
