-- ===== src/Peer/Traversal.antt =====
-- src/internal/peer/nat_traversal.go, its hole punching. The mutex makes each access to the peers one
-- step. The socket and the timer of listenForPunchResponse are the list of what its rounds see: a packet
-- that another listener on the socket reads is not among them.
pub mod Punch
pub mod PublicAddress
use Prim.Native.String.{String}
use peer_mesh.Prelude.{
  ℕ, ◌+◌, Bool, true, false, ◌&&◌, Option, none, some, List, [], ◌∷◌, length, take, ltb, ◌==◌,
  nat_eq, list_eq, string_eq, if◌then◌else◌, Result, ok, err, Outcome, returns, fails, panics,
  replicate, ◌++◌,
}
use peer_mesh.Prelude.Int.{ℤ}
use peer_mesh.Prelude.Assoc.{Assoc, lookup, insert}
use peer_mesh.Net.{text, net_runs}
use peer_mesh.Peer.Stun
use peer_mesh.Peer.Stun.{UdpAddr, parse_stun_response, stun_runs}

-- LocalAddr is never set.
pub record PeerInfo : Type 0 where
  pub id : String
  pub public_addr : UdpAddr
  pub last_seen : ℕ
  pub is_reachable : Bool

pub record NatTraversal : Type 0 where
  pub local_addr : UdpAddr
  pub stun_servers : List String
  pub peers : Assoc String PeerInfo

pub record TraversalConfig : Type 0 where
  pub local_port : ℤ
  pub stun_servers : List String

pub data Error : Type 0 where
  no_listener unresolved_server request_not_sent no_response no_public_address : Error
  bad_response : Stun.Error → Error

abbrev pub default_servers : List String
default_servers =
    "stun.l.google.com:19302" ∷ "stun1.l.google.com:19302" ∷ "stun.stunprotocol.org:3478" ∷ []

abbrev or_default : List String → List String
or_default [] = default_servers
or_default (s ∷ ss) = s ∷ ss

-- `listens` is the socket's own address, if net.ListenUDP opens one on the port. The configured timeout
-- is not kept.
unfoldable pub new_nat_traversal :
    TraversalConfig → (ℤ → Option UdpAddr) → Result Error NatTraversal
new_nat_traversal config listens = elim (listens config.local_port) [
  | none ↦ err no_listener
  | some addr ↦
      ok (record { local_addr = addr; stun_servers = or_default config.stun_servers; peers = [] })
]

-- How a server answers: its name does not resolve, the request cannot be sent, no packet comes in five
-- seconds, or one with these bytes.
pub data Answer : Type 0 where
  unresolved unsent silent : Answer
  packet : List ℕ → Answer

abbrev pub response_error : Outcome Stun.Error UdpAddr → Outcome Error UdpAddr
response_error (returns addr) = returns addr
response_error (fails e) = fails (bad_response e)
response_error panics = panics

-- The buffer holds 1024 bytes of a packet.
unfoldable pub query_stun_server : Answer → Outcome Error UdpAddr
query_stun_server unresolved = fails unresolved_server
query_stun_server unsent = fails request_not_sent
query_stun_server silent = fails no_response
query_stun_server (packet bytes) = response_error (parse_stun_response (take 1024 bytes))

-- A server's result, or else what the servers behind it give.
abbrev pub or_next : Outcome Error UdpAddr → Outcome Error UdpAddr → Outcome Error UdpAddr
or_next (returns addr) rest = returns addr
or_next (fails e) rest = rest
or_next panics rest = panics

-- The loop of GetPublicAddress over the servers from the i-th on; `answer` is the answer to a query by its
-- place and its server.
unfoldable pub ask_servers : (ℕ → String → Answer) → ℕ → List String → Outcome Error UdpAddr
ask_servers answer i [] = fails no_public_address
ask_servers answer i (server ∷ servers) =
    or_next (query_stun_server (answer i server)) (ask_servers answer (i + 1) servers)

unfoldable pub get_public_address : NatTraversal → (ℕ → String → Answer) → Outcome Error UdpAddr
unfolding ask_servers
get_public_address t answer = ask_servers answer 0 t.stun_servers

unfoldable pub start_hole_punch : NatTraversal → String → UdpAddr → ℕ → NatTraversal
start_hole_punch t id addr now = record t {
  peers =
      insert id (record { id = id; public_addr = addr; last_seen = now; is_reachable = false })
        t.peers;
}

-- UDPAddr.String tells the addresses' texts and the ports apart.
unfoldable pub same_address : UdpAddr → UdpAddr → Bool
same_address a b = (text a.ip == text b.ip) && (a.port == b.port)

-- "PUNCH:"
abbrev pub punch_prefix : List ℕ
punch_prefix = 80 ∷ 85 ∷ 78 ∷ 67 ∷ 72 ∷ 58 ∷ []

unfoldable pub is_punch : List ℕ → Bool
is_punch bytes = if ltb 6 (length bytes) then take 6 bytes == punch_prefix else false

-- A round of the loop: the timer has fired, the read has failed, or a packet has come.
pub data Event : Type 0 where
  timed_out read_failed : Event
  received : UdpAddr → List ℕ → ℕ → Event

unfoldable pub mark_found : NatTraversal → String → Option PeerInfo → ℕ → NatTraversal
mark_found t id none now = t
mark_found t id (some peer) now = record t {
  peers = insert id (record peer { is_reachable = true; last_seen = now }) t.peers;
}

unfoldable pub mark_reachable : NatTraversal → String → ℕ → NatTraversal
unfolding mark_found
mark_reachable t id now = mark_found t id (lookup id t.peers) now

-- The rounds of listenForPunchResponse so far, with the peers after them.
unfoldable pub listen : NatTraversal → String → UdpAddr → List Event → NatTraversal
listen t id addr [] = t
listen t id addr (timed_out ∷ events) = t
listen t id addr (read_failed ∷ events) = listen t id addr events
listen t id addr (received from bytes now ∷ events) =
    let rest = listen t id addr events in
    if same_address from addr
    then (if is_punch bytes then mark_reachable t id now else rest)
    else rest

abbrev reachable : Option PeerInfo → Bool
reachable none = false
reachable (some peer) = peer.is_reachable

unfoldable pub is_peer_reachable : NatTraversal → String → Bool
is_peer_reachable t id = reachable (lookup id t.peers)

unfoldable pub get_peer_info : NatTraversal → String → Option PeerInfo
get_peer_info t id = lookup id t.peers

abbrev pub infos : Assoc String PeerInfo → List PeerInfo
infos [] = []
infos ((id, peer) ∷ m) = peer ∷ infos m

unfoldable pub get_all_peers : NatTraversal → List PeerInfo
get_all_peers t = infos t.peers

abbrev pub count_reachable : Assoc String PeerInfo → ℕ
count_reachable [] = 0
count_reachable ((id, peer) ∷ m) =
    if peer.is_reachable then count_reachable m + 1 else count_reachable m

pub record Stats : Type 0 where
  pub local_address : UdpAddr
  pub total_peers : ℕ
  pub reachable_peers : ℕ
  pub stun_servers : List String

unfoldable pub get_stats : NatTraversal → Stats
get_stats t = record {
  local_address = t.local_addr;
  total_peers = length t.peers;
  reachable_peers = count_reachable t.peers;
  stun_servers = t.stun_servers;
}

-- The packets of performHolePunch, whether or not they can be sent; `print_addr` is UDPAddr.String.
unfoldable pub punch_packets : (UdpAddr → List ℕ) → NatTraversal → List (List ℕ)
punch_packets print_addr t = replicate 5 (punch_prefix ++ print_addr t.local_addr)

-- What a run of the functions above opens.
unfoldable pub traversal_runs : ℕ
unfolding net_runs lookup insert start_hole_punch same_address is_punch mark_reachable listen
    is_peer_reachable get_peer_info get_all_peers stun_runs query_stun_server get_public_address
traversal_runs = 0
