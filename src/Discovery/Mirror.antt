-- ===== src/Discovery/Mirror.antt =====
-- The client's peers and the server's registry: a client that has read the peer list and the news that
-- follow sees what the registry lists.
pub mod World
pub mod Follow
pub mod Steps
pub mod News
use Prim.Native.String.{String}
use peer_mesh.Prelude.{
  ℕ, ◌≡◌, ◌≢◌, refl, ap, sym, ◌∙◌, Bool, true, false, not, Option, none, some, List, [], ◌∷◌,
  length, arith, Bool-cases, Option-cases, inl, inr, ◌==◌, string_eq, nat_eq, if◌then◌else◌,
  if_cases, Outcome, returns, fails, panics,
}
use peer_mesh.Prelude.Int.{ℤ}
use peer_mesh.Prelude.Assoc.{
  Assoc, lookup, insert, erase, Distinct, lookup-insert, lookup-erase, beq_self,
}
use peer_mesh.Net.{Ip}
use peer_mesh.Discovery.Message.{Peer, Message}
use peer_mesh.Discovery.Server
use peer_mesh.Discovery.Server.{
  PeerConnection, Server, Conn, new_peer, ipv4_zero, enter, online, peers_of, get_peers, register,
  touch, update_peer_last_seen, seen, find_conn, remove_peer, dead_peers, drop_peer, drop_peers,
  cleanup_dead_peers,
}
use peer_mesh.Discovery.Server.Registry
use peer_mesh.Discovery.Wire.{list_message, joined_message, left_message}
use peer_mesh.Discovery.Client
use peer_mesh.Discovery.Client.{Client, Reply, Error, handle_message, mark_left}
use peer_mesh.Discovery.Client.Reading.{
  received, insert_all, AllLong, Listens, handle_message-list, handle_message-joined,
  handle_message-left,
}

-- What both sides know of a peer: its address, its port and the texts of its public and local address.
abbrev pub Facts : Type 0
Facts = Ip × ℤ × String × String

abbrev pub facts : Peer → Facts
facts p = (p.ip, p.port, p.public_ip, p.local_ip)

abbrev pub shown : Option Peer → Option Facts
shown none = none
shown (some p) = if p.is_online then some (facts p) else none

abbrev pub listed : Option PeerConnection → Option Facts
listed none = none
listed (some k) = if k.is_online then some (facts k.peer) else none

-- The peers that are online, on either side.
abbrev pub client_view : Client → String → Option Facts
client_view c id = shown (lookup id c.peers)

abbrev pub server_view : Server → String → Option Facts
server_view s id = listed (lookup id s.peers)

abbrev pub Mirrors : Server → Client → Type 0
Mirrors s c = (id : String) → client_view c id ≡ server_view s id

abbrev or_else : Option Facts → Option Facts → Option Facts
or_else none other = other
or_else (some f) other = some f

insert_all-view :
    (m : Assoc String PeerConnection) (now : ℕ) (n : Assoc String Peer) (j : String)
    → Distinct m
    → Registry.Keyed m
    → shown (lookup j (insert_all (peers_of (online m)) now n))
      ≡ or_else (listed (lookup j m)) (shown (lookup j n))
unfolding lookup
insert_all-view [] now n j d k = refl
insert_all-view ((id, e) ∷ m) now n j d k = elim (Bool-cases e.is_online) [
  | inl on ↦ rw on (
      insert_all-view m now (insert e.peer.id (received e.peer now) n) j d.1 k.1
      ∙ ground (
        arith,
        string_eq.beq_iff id j,
        string_eq.beq_iff e.peer.id j,
        lookup-insert e.peer.id j (received e.peer now) n,
        d.0,
        k.0.1,
      ))
  | inr off ↦
      rw off (insert_all-view m now n j d.1 k.1 ∙ ground (arith, string_eq.beq_iff id j, d.0))
]

-- The peer list.
pub list-Mirrors :
    (s : Server) (c : Client) (now : ℕ)
    → Registry.IsValid s
    → Mirrors s (record c { peers = insert_all (get_peers s) now [] })
unfolding get_peers lookup
list-Mirrors s c now v j = insert_all-view s.peers now [] j v.distinct v.keyed ∙ ground (arith)

pub mark_left-view :
    (c : Client) (id j : String) (found : Option Peer) (now : ℕ)
    → lookup id c.peers ≡ found
    → client_view (mark_left found c id now) j ≡ (if id == j then none else client_view c j)
unfolding mark_left
mark_left-view c id j none now e = ground (arith, string_eq.beq_iff id j)
mark_left-view c id j (some p) now e =
    rw (lookup-insert id j (record p { is_online = false; last_seen = now }) c.peers) (ground arith)
