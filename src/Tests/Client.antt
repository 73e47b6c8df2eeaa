-- ===== src/Tests/Client.antt =====
-- src/internal/discovery/client.go on a server of one peer. An address is written byte for byte, a byte as
-- that many letters.
use Prim.Native.Char.{code}
use Prim.Native.String.{String}
use peer_mesh.Prelude.{
  ℕ, zero, suc, ◌+◌, ◌≡◌, ◌≢◌, refl, ap, ◌∙◌, true, false, Option, none, some, [], ◌∷◌, length, ok,
  panics, inr, ◌==◌, nat_eq, if◌then◌else◌,
}
use peer_mesh.Prelude.{arith}
use peer_mesh.Net.{Ip}
use peer_mesh.Discovery.Message.{Peer}
use peer_mesh.Discovery.Server.{
  Server, Sent, Conn, new_peer, get_peer, register, remove_peer, server_runs,
}
use peer_mesh.Discovery.Wire.{registration, joined_message, left_message, sent_message}
use peer_mesh.Discovery.Client.{
  ClientConfig, Client, handles_peer_list, handles_peer_joined, handles_peer_left, handles_ping,
  new_client, disconnect, handle_message, client_runs,
}
use peer_mesh.Discovery.Client.Reading.{Listens, handle_message-safe}
use peer_mesh.Discovery.Session.{
  refused, dialed, got, unread, waits, handle_messages, reconnect_to_server, connect,
  after_disconnect,
}
use peer_mesh.Discovery.Session.Lost.{kept, undisturbed, handle_messages-lost}
use peer_mesh.Discovery.Session.Registered.{registration-listed}
use peer_mesh.Discovery.Server.Connection
use peer_mesh.Discovery.Server.Connection.{handle_connection, IsAbsent}
use peer_mesh.Discovery.Mirror.{facts, client_view, server_view}
use peer_mesh.Discovery.Mirror.World.{World, left_writes, follow, joins, leaves, here, next}
use peer_mesh.Discovery.Mirror.News.{news-Mirrors, late_left-hides}

abbrev write_byte : ℕ → String → String
write_byte zero s = String.◌∷◌ "b" s
write_byte (suc n) s = String.◌∷◌ "a" (write_byte n s)

abbrev write_ip : Ip → String
write_ip [] = ""
write_ip (n ∷ ns) = write_byte n (write_ip ns)

abbrev with_byte : ℕ → Option Ip → Option Ip
with_byte n none = none
with_byte n (some ns) = some (n ∷ ns)

abbrev read_ip : ℕ → String → Option Ip
read_ip n String.[] = some []
read_ip n (String.◌∷◌ c s) =
    let more = read_ip (suc n) s in
    let others = read_ip zero s in if code c == 97 then more else with_byte n others

read_ip-write_byte :
    (k n : ℕ) (s : String) → read_ip n (write_byte k s) ≡ with_byte (n + k) (read_ip zero s)
read_ip-write_byte zero n s = ap (λ k. with_byte k (read_ip zero s)) (omega arith)
read_ip-write_byte (suc k) n s =
    read_ip-write_byte k (suc n) s ∙ ap (λ k'. with_byte k' (read_ip zero s)) (omega arith)

read_ip-write_ip : (ip : Ip) → read_ip zero (write_ip ip) ≡ some ip
read_ip-write_ip [] = refl
read_ip-write_ip (n ∷ ns) =
    read_ip-write_byte n zero (write_ip ns)
    ∙ ap (λ k. with_byte k (read_ip zero (write_ip ns))) (omega arith)
    ∙ ap (with_byte n) (read_ip-write_ip ns)

print_read : (ip : Ip) → length ip ≡ 16 → read_ip zero (write_ip ip) ≡ some ip
print_read ip h = read_ip-write_ip ip

abbrev write_time : ℕ → String
write_time n = "2026-01-01T00:00:00Z"

abbrev bob_conn : Conn
bob_conn = record {
  number = 4;
  ip = some (0 ∷ 0 ∷ 0 ∷ 0 ∷ 0 ∷ 0 ∷ 0 ∷ 0 ∷ 0 ∷ 0 ∷ 255 ∷ 255 ∷ 192 ∷ 0 ∷ 2 ∷ 7 ∷ []);
  writable = true;
}

abbrev bob : Peer
bob = new_peer bob_conn "bob" "10.0.0.5" 1

-- The registry of one peer, and what a client of it is after it has connected.
abbrev registry : Server
registry = (register (record { peers = []; closed = [] }) bob_conn "bob" "10.0.0.5" 1).server

abbrev alice : Client
alice = record {
  server_url = "localhost:8080";
  conn = some 1;
  peer_id = "alice";
  local_ip = [];
  peers = [];
  stop_closed = false;
  is_connected = true;
  reconnect = false;
  handlers =
      ("peer_list", handles_peer_list)
      ∷ ("peer_joined", handles_peer_joined)
      ∷ ("peer_left", handles_peer_left)
      ∷ ("ping", handles_ping)
      ∷ [];
}

alice_handlers :
    new_client (record {
      server_url = "localhost:8080";
      peer_id = "alice";
      local_ip = [];
      reconnect = false;
    })
    ≡ ok (record alice { conn = none; is_connected = false })
unfolding client_runs
alice_handlers = refl

-- A client that disconnects, and then is connected again, cannot disconnect again.
disconnected_run :
    (disconnect (record (disconnect alice true).1 { is_connected = true }) true).0 ≡ panics
unfolding client_runs
disconnected_run = refl

alice-Listens : Listens alice
unfolding client_runs
alice-Listens = record {
  on_list = refl;
  on_joined = refl;
  on_left = refl;
  on_ping = refl;
  on_pong = refl;
  linked = λ e. cc;
}

handle_message-safe_example :
    handle_message
      (read_ip zero)
      alice
      (sent_message write_ip write_time (Sent.peer_joined bob))
      5
      true
    ≢ panics
handle_message-safe_example =
    handle_message-safe write_ip write_time (read_ip zero) print_read alice alice-Listens 5 true
      (Sent.peer_joined bob) refl

-- Bob is registered, Alice registers and reads the list, Carol registers, and Bob's connection is lost.
abbrev alice_conn : Conn
alice_conn = record bob_conn { number = 9 }

abbrev carol_conn : Conn
carol_conn = record bob_conn { number = 5 }

abbrev alice_joins : World
alice_joins = record {
  server = (register registry alice_conn "alice" "10.0.0.9" 5).server;
  client =
      follow write_ip write_time (read_ip zero) 9 alice
        (register registry alice_conn "alice" "10.0.0.9" 5).writes 5;
}

abbrev carol_joins : World
carol_joins = record {
  server = (register alice_joins.server carol_conn "carol" "10.0.0.6" 6).server;
  client =
      follow write_ip write_time (read_ip zero) 9 alice_joins.client
        (register alice_joins.server carol_conn "carol" "10.0.0.6" 6).writes 7;
}

abbrev bob_leaves : World
bob_leaves = record {
  server = (remove_peer carol_joins.server 4).0;
  client =
      follow write_ip write_time (read_ip zero) 9 carol_joins.client
        (left_writes (remove_peer carol_joins.server 4).0 (remove_peer carol_joins.server 4).1) 8;
}

news-Mirrors_example : client_view bob_leaves.client "carol" ≡ server_view bob_leaves.server "carol"
unfolding client_runs server_runs
news-Mirrors_example =
    news-Mirrors write_ip write_time (read_ip zero) print_read registry alice alice_conn "alice"
      "10.0.0.9" 5 5 bob_leaves (record { distinct = (refl, tt); keyed = ((refl, refl), tt) })
      alice-Listens refl (refl, (refl, tt))
      (next
        (next here (joins carol_conn "carol" "10.0.0.6" 6 7 (λ e. omega (arith, e)) refl refl refl))
        (leaves 4 8 refl))
      "carol"

-- Both sides have Carol, and not Bob.
mirror_run :
    (server_view bob_leaves.server "carol"
      ≡ some (facts (new_peer carol_conn "carol" "10.0.0.6" 6)))
    × (client_view bob_leaves.client "bob" ≡ none)
unfolding client_runs server_runs sent_message
mirror_run = (refl, refl)

-- Bob's connection is lost, Bob registers again over another one, and then Alice hears that Bob has left.
abbrev bob_again : Conn
bob_again = record bob_conn { number = 6 }

joined_alice-Listens : Listens alice_joins.client
unfolding client_runs server_runs sent_message
joined_alice-Listens = record {
  on_list = refl;
  on_joined = refl;
  on_left = refl;
  on_ping = refl;
  on_pong = refl;
  linked = λ e. cc;
}

late_left-hides_example :
    let again = register (remove_peer alice_joins.server 4).0 bob_again "bob" "10.0.0.5" 6 in
    let told = follow write_ip write_time (read_ip zero) 9 alice_joins.client again.writes 7 in
    let hidden =
      follow write_ip write_time
        (read_ip zero)
        9
        told
        (left_writes again.server (remove_peer alice_joins.server 4).1)
        8 in
    (client_view told "bob" ≡ some (facts (new_peer bob_again "bob" "10.0.0.5" 6)))
    × (client_view hidden "bob" ≡ none)
    × (server_view again.server "bob" ≡ some (facts (new_peer bob_again "bob" "10.0.0.5" 6)))
unfolding client_runs server_runs
late_left-hides_example =
    late_left-hides write_ip write_time (read_ip zero) print_read alice_joins.server
      alice_joins.client 9 4 bob_again "bob" "10.0.0.5" 6 7 8 joined_alice-Listens refl (λ e. cc)
      (λ e. omega (arith, e)) refl refl refl

-- After a lost connection the news of Bob's leaving is not read, though the server could be dialed.
handle_messages-lost_example :
    kept (
      handle_messages
        (read_ip zero)
        (record alice { reconnect = true })
        (got (joined_message write_ip bob) 5 true
          ∷ unread (undisturbed (dialed 9 ∷ []))
          ∷ got (left_message "bob") 6 true
          ∷ []))
    ≡ kept (
        handle_messages
          (read_ip zero)
          (record alice { reconnect = true })
          (got (joined_message write_ip bob) 5 true ∷ []))
handle_messages-lost_example =
    handle_messages-lost (read_ip zero) (record alice { reconnect = true }) (dialed 9 ∷ [])
      (got (joined_message write_ip bob) 5 true ∷ []) (got (left_message "bob") 6 true ∷ [])
      (record { on = inr refl; again = refl })

abbrev offline : Client
offline = record alice { conn = none; is_connected = false; reconnect = true }

-- Reconnecting would work for a client that knows that its connection is lost.
dialed_run :
    reconnect_to_server offline (undisturbed (refused ∷ dialed 9 ∷ []))
    ≡ (record offline { conn = some 9; is_connected = true }, waits)
unfolding client_runs reconnect_to_server connect after_disconnect
dialed_run = refl

-- A Disconnect during the sleep of a reconnection does not stop it from dialing.
disturbed_run :
    (reconnect_to_server
      (record alice { reconnect = true })
      (record { disconnects = some true; dial = dialed 9 } ∷ [])).1
    ≡ waits
unfolding client_runs reconnect_to_server connect after_disconnect
disturbed_run = refl

abbrev alice_config : ClientConfig
alice_config = record {
  server_url = "localhost:8080";
  peer_id = "alice";
  local_ip = 10 ∷ 0 ∷ 0 ∷ 6 ∷ [];
  reconnect = false;
}

abbrev alice_made : Client
alice_made = record alice { conn = none; is_connected = false; local_ip = 10 ∷ 0 ∷ 0 ∷ 6 ∷ [] }

registration-listed_example :
    let msg = registration write_ip "alice" (10 ∷ 0 ∷ 0 ∷ 6 ∷ []) in
    (get_peer (handle_connection registry carol_conn (Connection.got msg 9 ∷ [])).server "alice"
      ≡ some (new_peer carol_conn "alice" (write_ip (10 ∷ 0 ∷ 0 ∷ 6 ∷ [])) 9))
    × IsAbsent 5
        (handle_connection registry carol_conn
          (Connection.got msg 9 ∷ Connection.unread ∷ [])).server.peers
unfolding client_runs server_runs
registration-listed_example =
    registration-listed write_ip alice_config alice_made registry carol_conn 9 refl
      (λ e. omega (arith, e), tt)
