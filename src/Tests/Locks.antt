-- ===== src/Tests/Locks.antt =====
-- Goroutines that share the mutex of src/internal/discovery/server.go, and of client.go.
use peer_mesh.Prelude.{ℕ, zero, suc, ◌≡◌, ◌≢◌, refl, true, false, List, [], ◌∷◌, inr}
use native.Mathlib.Decide.{ℕ_discrete}
use peer_mesh.Sync.{
  Call, lock, unlock, rlock, runlock, work, out, writes, begins, System, update, Reach, locks,
  works, pick, here, next,
}
use peer_mesh.Discovery.Locks.{
  stop_calls, connect_calls, is_connected_calls, send_message_calls, stop_calls-block,
  connect_calls-block,
}

-- Two goroutines on the mutex, and one that does something else.
abbrev three : List Call → System
three calls zero = begins calls
three calls (suc zero) = begins (rlock ∷ runlock ∷ [])
three calls (suc (suc zero)) = begins (work ∷ [])
three calls (suc (suc (suc n))) = begins []

three-free : (calls : List Call) (j : ℕ) → (three calls j).mode ≡ out
three-free calls zero = refl
three-free calls (suc zero) = refl
three-free calls (suc (suc zero)) = refl
three-free calls (suc (suc (suc n))) = refl

-- The first has the mutex.
abbrev locked : List Call → System
locked rest = update (three (lock ∷ rest)) 0 (record { mode = writes; calls = rest })

first_locks : (rest : List Call) → Reach (three (lock ∷ rest)) (locked rest)
first_locks rest = next here (pick 0 (locks rest refl (three-free (lock ∷ rest)) refl))

abbrev worked : List Call → System
worked rest = update (locked rest) 2 (begins [])

third_works : (rest : List Call) → Reach (locked rest) (worked rest)
unfolding ℕ_discrete
third_works rest = next here (pick 2 (works [] refl refl))

stop_calls-block_example :
    let u = worked (lock ∷ unlock ∷ unlock ∷ []) in
    ((u 0).calls ≢ []) × (u 1 ≡ locked (lock ∷ unlock ∷ unlock ∷ []) 1)
unfolding stop_calls ℕ_discrete
stop_calls-block_example =
    stop_calls-block (three (stop_calls true)) 0 1 (locked (lock ∷ unlock ∷ unlock ∷ []))
      (worked (lock ∷ unlock ∷ unlock ∷ [])) refl (first_locks (lock ∷ unlock ∷ unlock ∷ [])) refl
      (runlock ∷ [], inr refl) (third_works (lock ∷ unlock ∷ unlock ∷ []))

abbrev registers : List Call
registers = work ∷ rlock ∷ runlock ∷ lock ∷ work ∷ unlock ∷ unlock ∷ []

connect_calls-block_example :
    ((worked registers 0).calls ≢ []) × (worked registers 1 ≡ locked registers 1)
unfolding connect_calls send_message_calls is_connected_calls ℕ_discrete
connect_calls-block_example =
    connect_calls-block (three (connect_calls false true)) 0 1 (locked registers) (worked registers)
      refl (first_locks registers) refl (runlock ∷ [], inr refl) (third_works registers)
