-- ===== src/Tests/Pool.antt =====
-- src/internal/peer/connection.go on a pool of one peer.
use Prim.Native.String.{String}
use peer_mesh.Prelude.{
  ℕ, ◌*◌, ◌≡◌, refl, true, false, Option, some, none, [], ◌∷◌, arith, ok, err, ◌==◌, string_eq,
  if◌then◌else◌,
}
use peer_mesh.Prelude.Int.{pos}
use peer_mesh.Peer.Pool.{
  Connection, ConnectionPool, PoolConfig, Dialed, Io, new_connection_pool, fresh_connection,
  get_connection, connect, connect_new, disconnect, send, is_connected, cleanup, pool_full,
  not_active, send_failed, second, pool_runs,
}
use peer_mesh.Peer.Pool.Invariant.{connects, sends, closes, step, run, IsValid, run-IsValid}
use peer_mesh.Peer.Pool.Replies.{
  send_failure, connect-get, connect_full_dead, get_connection-cleanup,
}

abbrev settings : PoolConfig
settings = record { max_connections = pos 1; timeout = pos 0; keep_alive = pos 0 }

abbrev dialed : Dialed
dialed = record { conn = 3; remote_addr = "10.0.0.2:9000"; local_addr = "10.0.0.1:9000" }

abbrev bob : Connection
bob = fresh_connection "bob" dialed 5

abbrev empty : ConnectionPool
empty = new_connection_pool settings

-- Bob is connected at time 5.
abbrev joined : ConnectionPool
joined = record {
  connections = ("bob", bob) ∷ [];
  config = record {
    max_connections = pos 1;
    timeout = pos (30 * second);
    keep_alive = pos (60 * second);
  };
  closed = [];
}

joined_run : connect empty "bob" (some dialed) 5 ≡ (ok bob, joined)
unfolding pool_runs
joined_run = refl

-- The connection has died.
abbrev dead_bob : Connection
dead_bob = record bob { is_connected = false }

abbrev dead : ConnectionPool
dead = record joined { connections = ("bob", dead_bob) ∷ [] }

abbrev failure : Io
failure = record { deadline_set = true; moved = none; now = 6 }

abbrev success : Io
success = record { deadline_set = true; moved = some 4; now = 6 }

-- A peer that is sent four bytes, and what remains of the pool after Close.
sent_run : (send joined "bob" success).0 ≡ ok tt
unfolding pool_runs
sent_run = refl

closed_run :
    run joined (sends "bob" success ∷ closes ∷ [])
    ≡ record joined { connections = []; closed = 3 ∷ [] }
unfolding pool_runs run step
closed_run = refl

joined-IsValid : IsValid (new_connection_pool settings).config joined
unfolding pool_runs run step
joined-IsValid = run-IsValid settings (connects "bob" (some dialed) 5 ∷ [])

run-IsValid_example :
    IsValid (new_connection_pool settings).config (
      run
        (new_connection_pool settings)
        (connects "bob" (some dialed) 5 ∷ sends "bob" failure ∷ []))
run-IsValid_example =
    run-IsValid settings (connects "bob" (some dialed) 5 ∷ sends "bob" failure ∷ [])

send_failure_example :
    let r = send joined "bob" failure in
    (r.0 ≡ err send_failed)
    × (is_connected r.1 "bob" ≡ false)
    × ((send r.1 "bob" success).0 ≡ err not_active)
    × ((d : Option Dialed) (later : ℕ) → connect r.1 "bob" d later ≡ connect_new r.1 "bob" d later)
unfolding pool_runs
send_failure_example = send_failure joined "bob" bob 6 success refl refl

connect-get_example :
    (bob.is_connected ≡ true)
    × (get_connection (connect empty "bob" (some dialed) 5).1 "bob" ≡ some bob)
    × ((j : String)
        → get_connection (connect empty "bob" (some dialed) 5).1 j
          ≡ (if "bob" == j then some bob else get_connection empty j))
unfolding pool_runs
connect-get_example = connect-get empty "bob" (some dialed) 5 bob refl

dead-IsValid : IsValid dead.config dead
unfolding pool_runs
dead-IsValid = record {
  distinct = (refl, tt);
  keyed = (refl, tt);
  settings = refl;
  bounded = omega arith;
}

connect_full_dead_example :
    ((d : Option Dialed) → connect dead "bob" d 7 ≡ (err pool_full, dead))
    × ((disconnect dead "bob").0 ≡ ok tt)
    × (fresh : Connection) × ((connect (disconnect dead "bob").1 "bob" (some dialed) 7).0
        ≡ ok fresh)
    × (fresh.is_connected ≡ true)
unfolding pool_runs
connect_full_dead_example =
    connect_full_dead dead.config dead "bob" dead_bob dialed 7 dead-IsValid refl refl (omega arith)

get_connection-cleanup_example : get_connection (cleanup joined (61 * second)) "bob" ≡ none
unfolding pool_runs
get_connection-cleanup_example =
    get_connection-cleanup (new_connection_pool settings).config joined (61 * second) "bob"
      joined-IsValid
