-- ===== src/Discovery/Server.antt =====
-- src/internal/discovery/server.go: the registry of peers. The mutex makes each function one step. A
-- WebSocket connection is a number; `writable` says on which connections WriteMessage succeeds, and
-- the writes that are tried are listed. A goroutine's broadcast is a step of its own.
pub mod Registry
pub mod Views
pub mod Connection
pub mod Lifecycle
use Prim.Native.String.{String}
use peer_mesh.Prelude.{
  ℕ, ◌+◌, ◌*◌, ◌-◌, Bool, true, false, not, Option, none, some, List, [], ◌∷◌, ◌++◌, length, ltb,
  ◌==◌, string_eq, nat_eq, if◌then◌else◌, Result, ok, err, or_fail, ◌>>=◌,
}
use peer_mesh.Prelude.Int.{ℤ, pos, sub_ℕ, ltb_ℤ}
use peer_mesh.Prelude.Assoc.{Assoc, lookup, insert, erase}
use peer_mesh.Net.{Ip}
use peer_mesh.Discovery.Message.{Peer, Json, Message, index, as_text, as_object}

pub record PeerConnection : Type 0 where
  pub id : String
  pub conn : ℕ
  pub peer : Peer
  pub last_seen : ℕ
  pub is_online : Bool

-- The registry, and the connections that the server has closed itself.
pub record Server : Type 0 where
  pub peers : Assoc String PeerConnection
  pub closed : List ℕ

pub data Error : Type 0 where
  invalid_payload missing_peer_id missing_local_ip peer_list_failed pong_failed : Error
  unknown_type : String → Error

-- A message that the server writes.
pub data Sent : Type 0 where
  ping pong : Sent
  peer_list : List Peer → Sent
  peer_joined : Peer → Sent
  peer_left : String → Sent

pub record Write : Type 0 where
  pub conn : ℕ
  pub sent : Sent

-- The order of the list stands for one order of Go's iteration over the map.
abbrev pub online : Assoc String PeerConnection → List PeerConnection
online [] = []
online ((id, c) ∷ m) = if c.is_online then c ∷ online m else online m

abbrev pub peers_of : List PeerConnection → List Peer
peers_of [] = []
peers_of (c ∷ cs) = c.peer ∷ peers_of cs

unfoldable pub get_peers : Server → List Peer
get_peers s = peers_of (online s.peers)

unfoldable pub get_peer : Server → String → Option Peer
get_peer s id = elim (lookup id s.peers) [ none ↦ none | some c ↦ some c.peer ]

-- broadcastMessage: a write that fails is logged and changes nothing.
abbrev pub to_all : Sent → List PeerConnection → List Write
to_all sent [] = []
to_all sent (c ∷ cs) = record { conn = c.conn; sent = sent } ∷ to_all sent cs

unfoldable pub broadcast_message : Server → Sent → List Write
broadcast_message s sent = to_all sent (online s.peers)

unfoldable pub broadcast_peer_joined : Server → Peer → List Write
unfolding broadcast_message
broadcast_peer_joined s peer = broadcast_message s (peer_joined peer)

unfoldable pub broadcast_peer_left : Server → String → List Write
unfolding broadcast_message
broadcast_peer_left s id = broadcast_message s (peer_left id)

-- net.IPv4(0, 0, 0, 0), in its 16-byte form
abbrev pub ipv4_zero : Ip
ipv4_zero = 0 ∷ 0 ∷ 0 ∷ 0 ∷ 0 ∷ 0 ∷ 0 ∷ 0 ∷ 0 ∷ 0 ∷ 255 ∷ 255 ∷ 0 ∷ 0 ∷ 0 ∷ 0 ∷ []

-- A client's connection: its number, what net.ParseIP makes of its remote host, and whether a write to
-- it succeeds.
pub record Conn : Type 0 where
  pub number : ℕ
  pub ip : Option Ip
  pub writable : Bool

pub record Handled : Type 0 where
  pub result : Result Error Unit
  pub server : Server
  pub writes : List Write

abbrev pub new_peer : Conn → String → String → ℕ → Peer
new_peer conn peer_id local_ip now = record {
  id = peer_id;
  ip = elim conn.ip [ none ↦ ipv4_zero | some ip ↦ ip ];
  port = pos 0;
  last_seen = now;
  is_online = true;
  public_ip = "";
  local_ip = local_ip;
}

abbrev pub enter : Server → Conn → String → String → ℕ → Server
enter s conn peer_id local_ip now = record s {
  peers =
      insert peer_id
        (record {
          id = peer_id;
          conn = conn.number;
          peer = new_peer conn peer_id local_ip now;
          last_seen = now;
          is_online = true;
        })
        s.peers;
}

abbrev pub send_peer_list : Server → Conn → Write
send_peer_list s conn = record { conn = conn.number; sent = peer_list (get_peers s) }

-- The registration of a payload that was read: the entry, the list for the peer, the news for all.
unfoldable pub register : Server → Conn → String → String → ℕ → Handled
register s conn peer_id local_ip now =
    let next = enter s conn peer_id local_ip now in
    if conn.writable
    then record {
      result = ok tt;
      server = next;
      writes =
          send_peer_list next conn
          ∷ broadcast_peer_joined next (new_peer conn peer_id local_ip now);
    }
    else record {
      result = err peer_list_failed;
      server = next;
      writes = send_peer_list next conn ∷ [];
    }

-- The peer's ID and address in a payload.
unfoldable pub read_register : Json → Result Error (String × String)
read_register payload = do
  fields ← or_fail (as_object payload) invalid_payload
  peer_id ← or_fail (as_text (index "peer_id" fields)) missing_peer_id
  local_ip ← or_fail (as_text (index "local_ip" fields)) missing_local_ip
  ok (peer_id, local_ip)

unfoldable pub register_read : Server → Conn → ℕ → Result Error (String × String) → Handled
register_read s conn now (err e) = record { result = err e; server = s; writes = [] }
register_read s conn now (ok (peer_id, local_ip)) = register s conn peer_id local_ip now

unfoldable pub handle_register : Server → Conn → Message → ℕ → Handled
unfolding register_read
handle_register s conn msg now = register_read s conn now (read_register msg.payload)

abbrev pub seen : PeerConnection → ℕ → PeerConnection
seen c now = record c { last_seen = now; peer = record c.peer { last_seen = now } }

-- The first entry of the connection.
unfoldable pub touch : ℕ → ℕ → Assoc String PeerConnection → Assoc String PeerConnection
touch conn now [] = []
touch conn now ((id, c) ∷ m) =
    let rest = touch conn now m in if c.conn == conn then (id, seen c now) ∷ m else (id, c) ∷ rest

unfoldable pub update_peer_last_seen : Server → ℕ → ℕ → Server
update_peer_last_seen s conn now = record s { peers = touch conn now s.peers }

unfoldable pub handle_ping : Server → Conn → ℕ → Handled
handle_ping s conn now = record {
  result = if conn.writable then ok tt else err pong_failed;
  server = update_peer_last_seen s conn.number now;
  writes = record { conn = conn.number; sent = pong } ∷ [];
}

unfoldable pub handle_pong : Server → Conn → ℕ → Handled
handle_pong s conn now = record {
  result = ok tt;
  server = update_peer_last_seen s conn.number now;
  writes = [];
}

unfoldable pub handle_message : Server → Conn → Message → ℕ → Handled
handle_message s conn msg now =
    if msg.type == "register"
    then handle_register s conn msg now
    else if msg.type == "ping"
    then handle_ping s conn now
    else if msg.type == "pong"
    then handle_pong s conn now
    else record { result = err (unknown_type msg.type); server = s; writes = [] }

-- The loop of removePeer, which leaves peerID empty when it finds no entry.
unfoldable pub find_conn : ℕ → Assoc String PeerConnection → String
find_conn conn [] = ""
find_conn conn ((id, c) ∷ m) = let rest = find_conn conn m in if c.conn == conn then id else rest

-- The registry after removePeer, and the ID whose leaving a goroutine then broadcasts.
unfoldable pub remove_peer : Server → ℕ → Server × Option String
unfolding find_conn
remove_peer s conn =
    let id = find_conn conn s.peers in
    if not (id == "") then (record s { peers = erase id s.peers }, some id) else (s, none)

-- A ping to each online peer; one that cannot be written to goes offline.
abbrev pub beat : (ℕ → Bool) → PeerConnection → PeerConnection
beat writable c =
    if c.is_online then (if writable c.conn then c else record c { is_online = false }) else c

unfoldable pub beat_all : (ℕ → Bool) → Assoc String PeerConnection → Assoc String PeerConnection
beat_all writable [] = []
beat_all writable ((id, c) ∷ m) = (id, beat writable c) ∷ beat_all writable m

unfoldable pub send_heartbeats : Server → (ℕ → Bool) → Server × List Write
unfolding beat_all
send_heartbeats s writable =
    (record s { peers = beat_all writable s.peers }, to_all ping (online s.peers))

-- now.Sub(peerConn.LastSeen) > 2 * time.Minute
unfoldable pub is_dead : ℕ → PeerConnection → Bool
is_dead now c = ltb_ℤ (pos (120 * 1_000_000_000)) (sub_ℕ now c.last_seen)

unfoldable pub dead_peers : ℕ → Assoc String PeerConnection → List String
dead_peers now [] = []
dead_peers now ((id, c) ∷ m) = if is_dead now c then id ∷ dead_peers now m else dead_peers now m

unfoldable pub drop_peer : Server → String → Option PeerConnection → Server
drop_peer s id none = s
drop_peer s id (some c) = record { peers = erase id s.peers; closed = c.conn ∷ s.closed }

unfoldable pub drop_peers : Server → List String → Server
unfolding drop_peer
drop_peers s [] = s
drop_peers s (id ∷ ids) = drop_peers (drop_peer s id (lookup id s.peers)) ids

-- The registry after cleanupDeadPeers, and the IDs whose leaving is then broadcast.
unfoldable pub cleanup_dead_peers : Server → ℕ → Server × List String
cleanup_dead_peers s now = let dead = dead_peers now s.peers in (drop_peers s dead, dead)

pub record Stats : Type 0 where
  pub total_peers : ℕ
  pub online_peers : ℕ
  pub offline_peers : ℕ

unfoldable pub get_stats : Server → Stats
get_stats s =
    let total = length s.peers in
    let up = length (online s.peers) in
    record { total_peers = total; online_peers = up; offline_peers = total - up }

-- What a run of the functions above opens.
unfoldable pub server_runs : ℕ
unfolding lookup insert erase get_peers get_peer broadcast_message broadcast_peer_joined
    broadcast_peer_left register read_register handle_register touch update_peer_last_seen
    handle_ping handle_pong handle_message remove_peer beat_all send_heartbeats is_dead dead_peers
    drop_peers cleanup_dead_peers get_stats
server_runs = 0
