-- ===== src/Tests/Discovery.antt =====
-- src/internal/discovery/server.go on two peers.
use Prim.Native.String.{String}
use peer_mesh.Prelude.{◌≡◌, ◌≢◌, refl, ◌⊎◌, true, some, [], ◌∷◌, err, ◌==◌, string_eq, nat_eq}
use peer_mesh.Discovery.Message.{Peer, Message, text, object, field, end}
use peer_mesh.Discovery.Server.{
  Error, Server, Conn, new_peer, get_peers, get_peer, handle_message, remove_peer, send_heartbeats,
  server_runs, missing_local_ip, cleanup_dead_peers, PeerConnection,
}
use peer_mesh.Discovery.Server.Registry.{
  receives, loses, step, run, empty, IsValid, registry-IsValid,
}
use peer_mesh.Prelude.{ap, sym, arith, Result, ok}
use peer_mesh.Discovery.Server.Connection.{
  unread, undecoded, got, handle_connection, IsAbsent, RegistersAs, handle_connection-leaves,
}
use peer_mesh.Prelude.{false, returns, panics}
use peer_mesh.Prelude.Int.{pos}
use peer_mesh.Discovery.Server.Lifecycle
use peer_mesh.Discovery.Server.Views.{remove_peer-leaves, get_peers-send_heartbeats}

abbrev conn : Conn
conn = record { number = 4; ip = some (192 ∷ 0 ∷ 2 ∷ 7 ∷ []); writable = true }

abbrev hello : String → Message
hello id = record {
  type = "register";
  payload = object (field "peer_id" (text id) (field "local_ip" (text "10.0.0.5") end));
  from = "";
}

abbrev entry : String → PeerConnection
entry id = record {
  id = id;
  conn = 4;
  peer = new_peer conn id "10.0.0.5" 1;
  last_seen = 1;
  is_online = true;
}

abbrev alice : Peer
alice = new_peer conn "alice" "10.0.0.5" 1

-- One connection has registered two IDs.
abbrev twice : Server
twice = run empty (receives conn (hello "alice") 1 ∷ receives conn (hello "bob") 1 ∷ [])

abbrev both : Server
both = record { peers = ("alice", entry "alice") ∷ ("bob", entry "bob") ∷ []; closed = [] }

both_run : twice ≡ both
unfolding server_runs run step
both_run = refl

-- The connection is lost, and "bob" stays.
ghost_run : get_peers (remove_peer both 4).0 ≡ new_peer conn "bob" "10.0.0.5" 1 ∷ []
unfolding server_runs
ghost_run = refl

-- A registration without an address is refused.
refused_run :
    (handle_message both conn
      (record { type = "register"; payload = object (field "peer_id" (text "eve") end); from = "" })
      2).result
    ≡ err missing_local_ip
unfolding server_runs
refused_run = refl

cleaned_run : (cleanup_dead_peers both 120_000_000_002).1 ≡ "alice" ∷ "bob" ∷ []
unfolding server_runs
cleaned_run = refl

registry-IsValid_example : IsValid (run empty (receives conn (hello "alice") 1 ∷ loses 4 ∷ []))
registry-IsValid_example = registry-IsValid (receives conn (hello "alice") 1 ∷ loses 4 ∷ [])

alice-bob : ◌≢◌ {A = String} "alice" "bob"
alice-bob e = cc ((string_eq.beq_iff "alice" "bob").1 e)

remove_peer-leaves_example :
    (get_peer (remove_peer both 4).0 "alice" ≡ some alice)
    ⊎ (get_peer (remove_peer both 4).0 "bob" ≡ some (new_peer conn "bob" "10.0.0.5" 1))
unfolding server_runs
remove_peer-leaves_example =
    remove_peer-leaves both 4 "alice" "bob" (entry "alice") (entry "bob") alice-bob refl refl

get_peers-send_heartbeats_example : get_peers (send_heartbeats both (λ n. n == 9)).0 ≡ []
get_peers-send_heartbeats_example = get_peers-send_heartbeats both (λ n. n == 9)

abbrev other : Conn
other = record conn { number = 7 }

other-IsAbsent : IsAbsent 7 both.peers
other-IsAbsent = (λ e. omega (arith, e), (λ e. omega (arith, e), tt))

first_ok :
    {p q : String × String} → ◌≡◌ {A = Result Error (String × String)} (ok p) (ok q) → q.0 ≡ p.0
first_ok {p} e = ap (λ r. elim r [ err x ↦ p.0 | ok q ↦ q.0 ]) (sym e)

-- A ping may carry anything.
abbrev other_ping : Message
other_ping = record (hello "zed") { type = "ping" }

ping-register : ◌≢◌ {A = String} "ping" "register"
ping-register e = cc

hello-RegistersAs : RegistersAs "eve" (got (hello "eve") 3 ∷ got other_ping 4 ∷ undecoded ∷ [])
unfolding server_runs
hello-RegistersAs = (λ _ id ip e. first_ok e, (λ e. absurd (ping-register e), tt))

eve-named : ◌≢◌ {A = String} "eve" ""
eve-named e = cc

handle_connection-leaves_example :
    IsAbsent 7
      (handle_connection both other
        (got (hello "eve") 3 ∷ got other_ping 4 ∷ undecoded ∷ unread ∷ [])).server.peers
handle_connection-leaves_example =
    handle_connection-leaves both other "eve"
      (got (hello "eve") 3 ∷ got other_ping 4 ∷ undecoded ∷ []) eve-named other-IsAbsent
      hello-RegistersAs

abbrev started : Lifecycle.Service
started = record {
  addr = ":8080";
  is_running = true;
  heartbeat_ticker = 30_000_000_000;
  cleanup_ticker = 5;
}

new_server_run :
    Lifecycle.new_server
      (record { addr = ""; heartbeat_interval = pos 0; cleanup_interval = pos 5 })
    ≡ returns (record started { is_running = false }, record { peers = []; closed = [] })
unfolding Lifecycle.new_server Lifecycle.ticker
new_server_run = refl

-- A second server of the process cannot start.
start_run :
    ((Lifecycle.start (record started { is_running = false }) false).1 ≡ started)
    × ((Lifecycle.start (record started { is_running = false }) true).0 ≡ panics)
unfolding Lifecycle.start
start_run = (refl, refl)

-- Both peers are gone after the second tick, and nothing happens behind the stop.
cleanup_run :
    Lifecycle.cleanup_loop both (
      Lifecycle.ticked 2
      ∷ Lifecycle.ticked 120_000_000_002
      ∷ Lifecycle.stopped
      ∷ Lifecycle.ticked 0
      ∷ [])
    ≡ (record { peers = []; closed = 4 ∷ 4 ∷ [] }, "alice" ∷ "bob" ∷ [])
unfolding server_runs Lifecycle.cleanup_loop
cleanup_run = refl
