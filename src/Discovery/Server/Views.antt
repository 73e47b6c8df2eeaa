-- ===== src/Discovery/Server/Views.antt =====
-- What clients of the registry see.
use Prim.Native.String.{String}
use peer_mesh.Prelude.{
  ℕ, ◌+◌, ◌≤◌, ◌≡◌, ◌≢◌, refl, sym, ◌∙◌, Bool, true, ◌&&◌, ◌⊎◌, inl, inr, some, List, [], ◌∷◌,
  length, arith, Bool-cases, ◌==◌, string_eq, nat_eq, if◌then◌else◌,
}
use peer_mesh.Prelude.Assoc.{Assoc, lookup, lookup-insert, lookup-erase}
use peer_mesh.Discovery.Message.{Peer}
use peer_mesh.Discovery.Server.{
  PeerConnection, Server, Conn, new_peer, enter, online, peers_of, get_peers, get_peer, register,
  find_conn, remove_peer, beat_all, send_heartbeats, get_stats,
}

-- A registration makes GetPeer answer with the new peer for its ID, whether or not the peer list could
-- be sent, and leaves the answers for the other IDs alone.
pub register-get_peer :
    (s : Server) (conn : Conn) (id local_ip : String) (now : ℕ) (j : String)
    → get_peer (register s conn id local_ip now).server j
      ≡ (if id == j then some (new_peer conn id local_ip now) else get_peer s j)
unfolding register get_peer
register-get_peer s conn id local_ip now j = elim (Bool-cases conn.writable) [
  | inl e ↦ rw e entered
  | inr e ↦ rw e entered
]
  where
    entered :
        get_peer (enter s conn id local_ip now) j
        ≡ (if id == j then some (new_peer conn id local_ip now) else get_peer s j)
    entered = ground (
      arith,
      lookup-insert id j
          (record {
            id = id;
            conn = conn.number;
            peer = new_peer conn id local_ip now;
            last_seen = now;
            is_online = true;
          })
          s.peers,
    )

get_peer-remove_peer :
    (s : Server) (conn : ℕ) (j : String) (c : PeerConnection)
    → lookup j s.peers ≡ some c
    → find_conn conn s.peers ≢ j
    → get_peer (remove_peer s conn).0 j ≡ some c.peer
unfolding get_peer remove_peer
get_peer-remove_peer s conn j c h ne = ground (
  arith,
  lookup-erase (find_conn conn s.peers) j s.peers,
  string_eq.beq_iff (find_conn conn s.peers) j,
)

-- removePeer takes at most one ID out of the registry: of two IDs that it holds, one keeps its entry,
-- also when both were registered on the connection that is lost.
pub remove_peer-leaves :
    (s : Server) (conn : ℕ) (a b : String) (c d : PeerConnection)
    → a ≢ b
    → lookup a s.peers ≡ some c
    → lookup b s.peers ≡ some d
    → (get_peer (remove_peer s conn).0 a ≡ some c.peer)
      ⊎ (get_peer (remove_peer s conn).0 b ≡ some d.peer)
remove_peer-leaves s conn a b c d ne ha hb = elim (Bool-cases (find_conn conn s.peers == a)) [
  | inl first ↦ inr (
      get_peer-remove_peer s conn b d hb
        (λ e. ne (sym ((string_eq.beq_iff (find_conn conn s.peers) a).0 first) ∙ e)))
  | inr apart ↦ inl (
      get_peer-remove_peer s conn a c ha
        (λ e. cc (apart, (string_eq.beq_iff (find_conn conn s.peers) a).1 e)))
]

-- The peers of the online entries whose connection takes a write.
abbrev pub reachable : (ℕ → Bool) → Assoc String PeerConnection → List Peer
reachable writable [] = []
reachable writable ((id, c) ∷ m) =
    if c.is_online && writable c.conn then c.peer ∷ reachable writable m else reachable writable m

online-beat_all :
    (writable : ℕ → Bool) (m : Assoc String PeerConnection)
    → peers_of (online (beat_all writable m)) ≡ reachable writable m
unfolding beat_all
online-beat_all writable [] = refl
online-beat_all writable ((id, c) ∷ m) = ground (arith, online-beat_all writable m)

-- After the heartbeats GetPeers lists the peers that were online and whose connection took the ping, in
-- the registry's order, and no others.
pub get_peers-send_heartbeats :
    (s : Server) (writable : ℕ → Bool)
    → get_peers (send_heartbeats s writable).0 ≡ reachable writable s.peers
unfolding get_peers send_heartbeats
get_peers-send_heartbeats s writable = online-beat_all writable s.peers

online-le : (m : Assoc String PeerConnection) → length (online m) ≤ length m
online-le [] = omega arith
online-le ((id, c) ∷ m) = ground (arith, online-le m)

length-peers_of : (cs : List PeerConnection) → length (peers_of cs) ≡ length cs
length-peers_of [] = refl
length-peers_of (c ∷ cs) = omega (arith, length-peers_of cs)

-- The counts of the server's GetStats: the peers that GetPeers lists are the online ones, and with the
-- offline ones they are all.
pub server_stats-counts :
    (s : Server)
    → ((get_stats s).online_peers ≡ length (get_peers s))
      × ((get_stats s).online_peers + (get_stats s).offline_peers ≡ length s.peers)
unfolding get_stats get_peers
server_stats-counts s = omega (arith, online-le s.peers, length-peers_of (online s.peers))
