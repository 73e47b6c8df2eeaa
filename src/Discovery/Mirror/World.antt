-- ===== src/Discovery/Mirror/World.antt =====
-- The server and a client that handles what the server writes to its connection, each piece of news before
-- the next.
use Prim.Native.String.{String}
use peer_mesh.Prelude.{
  ℕ, ◌≡◌, ◌≢◌, Bool, true, false, Option, none, some, List, [], ◌∷◌, ◌++◌, length, ◌==◌, string_eq,
  nat_eq, if◌then◌else◌,
}
use peer_mesh.Net.{Ip}
use peer_mesh.Discovery.Server.{
  Server, PeerConnection, Conn, Sent, Write, online, new_peer, register, broadcast_peer_left,
  update_peer_last_seen, remove_peer, cleanup_dead_peers,
}
use peer_mesh.Discovery.Wire.{sent_message}
use peer_mesh.Discovery.Client.{Client, handle_message}
use peer_mesh.Discovery.Session.{client_after}

pub record World : Type 0 where
  pub server : Server
  pub client : Client

-- What is written to a connection.
abbrev pub writes_to : ℕ → List Write → List Sent
writes_to me [] = []
writes_to me (w ∷ ws) = if w.conn == me then w.sent ∷ writes_to me ws else writes_to me ws

abbrev pub has_conn : ℕ → List PeerConnection → Bool
has_conn me [] = false
has_conn me (c ∷ cs) = if c.conn == me then true else has_conn me cs

-- The registry has an online entry of the connection.
abbrev pub IsOnline : ℕ → Server → Type 0
IsOnline me s = has_conn me (online s.peers) ≡ true

-- The broadcasts of the IDs that have left, by the goroutines that removePeer and cleanupDeadPeers start.
abbrev pub left_writes : Server → Option String → List Write
left_writes s none = []
left_writes s (some id) = broadcast_peer_left s id

abbrev pub all_left_writes : Server → List String → List Write
all_left_writes s [] = []
all_left_writes s (id ∷ ids) = broadcast_peer_left s id ++ all_left_writes s ids

module _ (print_ip : Ip → String) (print_time : ℕ → String) (parse_ip : String → Option Ip) where
  abbrev pub deliver : Client → Sent → ℕ → Client
  deliver c sent now =
      client_after c (handle_message parse_ip c (sent_message print_ip print_time sent) now true)

  -- The client handles what is written to its connection.
  abbrev pub deliver_all : Client → List Sent → ℕ → Client
  deliver_all c [] now = c
  deliver_all c (sent ∷ more) now = deliver_all (deliver c sent now) more now

  abbrev pub follow : ℕ → Client → List Write → ℕ → Client
  follow me c writes now = deliver_all c (writes_to me writes) now

  -- The registration of another connection whose list could be sent, the loss of one, a cleanup, or a sign
  -- of life from a peer, after which the client's connection is still online in the registry.
  pub data Step (me : ℕ) (w : World) : World → Type 0 where
    joins :
        (conn : Conn) (id local_ip : String) (now later : ℕ)
        → conn.number ≢ me
        → conn.writable ≡ true
        → length (new_peer conn id local_ip now).ip ≡ 16
        → IsOnline me (register w.server conn id local_ip now).server
        → Step me w (record {
          server = (register w.server conn id local_ip now).server;
          client = follow me w.client (register w.server conn id local_ip now).writes later;
        })
    leaves :
        (conn now : ℕ)
        → IsOnline me (remove_peer w.server conn).0
        → Step me w (record {
          server = (remove_peer w.server conn).0;
          client =
              follow me w.client
                (left_writes (remove_peer w.server conn).0 (remove_peer w.server conn).1)
                now;
        })
    cleans :
        (now later : ℕ)
        → IsOnline me (cleanup_dead_peers w.server now).0
        → Step me w (record {
          server = (cleanup_dead_peers w.server now).0;
          client =
              follow me w.client
                (all_left_writes
                  (cleanup_dead_peers w.server now).0
                  (cleanup_dead_peers w.server now).1)
                later;
        })
    hears :
        (conn now : ℕ) → Step me w (record w { server = update_peer_last_seen w.server conn now })

  pub data Reach (me : ℕ) (w : World) : World → Type 0 where
    here : Reach me w w
    next : {x y : World} → Reach me w x → Step me x y → Reach me w y
