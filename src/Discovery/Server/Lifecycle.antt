-- ===== src/Discovery/Server/Lifecycle.antt =====
-- src/internal/discovery/server.go: NewServer, Start, IsRunning and the two loops that Start begins. A ticker is
-- its interval in nanoseconds. The goroutine of http.ListenAndServe takes no part.
use Prim.Native.String.{String}
use peer_mesh.Prelude.{
  ℕ, ◌*◌, Bool, true, false, List, [], ◌∷◌, ◌++◌, ◌==◌, string_eq, nat_eq, if◌then◌else◌, Outcome,
  returns, fails, panics,
}
use peer_mesh.Prelude.Outcomes.{◌>>=◌}
use peer_mesh.Prelude.Int.{ℤ, pos, negsuc}
use peer_mesh.Discovery.Server.{Server, Write, send_heartbeats, cleanup_dead_peers}

pub record ServerConfig : Type 0 where
  pub addr : String
  pub heartbeat_interval : ℤ
  pub cleanup_interval : ℤ

-- The server but for its registry.
pub record Service : Type 0 where
  pub addr : String
  pub is_running : Bool
  pub heartbeat_ticker : ℕ
  pub cleanup_ticker : ℕ

pub data Error : Type 0 where
  already_running : Error

-- An interval that is not set has its default; time.NewTicker panics at one that is not positive.
unfoldable pub ticker : ℤ → ℕ → Outcome Error ℕ
ticker (pos n) seconds = returns (if n == 0 then seconds * 1_000_000_000 else n)
ticker (negsuc n) seconds = panics

unfoldable pub new_server : ServerConfig → Outcome Error (Service × Server)
unfolding ticker
new_server config = do
  heartbeat ← ticker config.heartbeat_interval 30
  cleanup ← ticker config.cleanup_interval 60
  returns (
    record {
      addr = if config.addr == "" then ":8080" else config.addr;
      is_running = false;
      heartbeat_ticker = heartbeat;
      cleanup_ticker = cleanup;
    },
    record { peers = []; closed = [] },
  )

-- http.HandleFunc panics if the process has a handler for the path already, as it has once any server of
-- it was started.
unfoldable pub start : Service → Bool → Outcome Error Unit × Service
start s handled =
    if s.is_running
    then (fails already_running, s)
    else if handled
    then (panics, s)
    else (returns tt, record s { is_running = true })

unfoldable pub is_running : Service → Bool
is_running s = s.is_running

-- What a loop's select meets: the stop, or a tick with what the step then meets.
pub data Tick (A : Type 0) : Type 0 where
  stopped : Tick A
  ticked : A → Tick A

abbrev pub after_writes : List Write → Server × List Write → Server × List Write
after_writes writes (s, more) = (s, writes ++ more)

unfoldable pub heartbeat_loop : Server → List (Tick (ℕ → Bool)) → Server × List Write
heartbeat_loop s [] = (s, [])
heartbeat_loop s (stopped ∷ ticks) = (s, [])
heartbeat_loop s (ticked writable ∷ ticks) =
    let (next, writes) = send_heartbeats s writable in
    after_writes writes (heartbeat_loop next ticks)

abbrev pub after_ids : List String → Server × List String → Server × List String
after_ids ids (s, more) = (s, ids ++ more)

-- With the IDs whose leaving is then broadcast.
unfoldable pub cleanup_loop : Server → List (Tick ℕ) → Server × List String
cleanup_loop s [] = (s, [])
cleanup_loop s (stopped ∷ ticks) = (s, [])
cleanup_loop s (ticked now ∷ ticks) =
    let (next, ids) = cleanup_dead_peers s now in after_ids ids (cleanup_loop next ticks)
