-- ===== src/Discovery/Mirror/News.antt =====
-- A client that reads what the server writes to its connection, and one that hears of a loss too late.
use Prim.Native.String.{String}
use peer_mesh.Prelude.{
  ℕ, ◌≡◌, ◌≢◌, refl, ap, sym, ◌∙◌, true, false, Option, none, some, List, [], ◌∷◌, length, arith,
  string_eq, nat_eq, if_cases,
}
use peer_mesh.Prelude.Assoc.{Assoc, insert, beq_self}
use peer_mesh.Net.{Ip}
use peer_mesh.Discovery.Message.{Peer}
use peer_mesh.Discovery.Server.{
  PeerConnection, Handled, Server, Conn, peer_list, new_peer, enter, online, peers_of, get_peers,
  broadcast_message, broadcast_peer_joined, broadcast_peer_left, register, find_conn, remove_peer,
}
use peer_mesh.Discovery.Server.Registry
use peer_mesh.Discovery.Client.{Client}
use peer_mesh.Discovery.Client.Reading.{insert_all, AllLong, Listens}
use peer_mesh.Discovery.Mirror.{facts, client_view, server_view, list-Mirrors}
use peer_mesh.Discovery.Mirror.Follow.{
  among, Follows, Follows-weaken, Listens-peers, deliver-list, left-Tells, joined-Tells,
  broadcast-told,
}
use peer_mesh.Discovery.Mirror.Steps.{register-view, joined-Follows, follow-register, Reach-Follows}
use peer_mesh.Discovery.Mirror.World.{
  World, has_conn, IsOnline, left_writes, deliver, follow, Reach,
}

-- A connection that has just registered is online.
insert-online :
    (me : ℕ) (id : String) (k : PeerConnection) (m : Assoc String PeerConnection)
    → k.is_online ≡ true
    → k.conn ≡ me
    → has_conn me (online (insert id k m)) ≡ true
unfolding insert
insert-online me id k [] on mine = rw on (rw mine (rw (beq_self me) refl))
insert-online me id k ((j, d) ∷ m) on mine =
    ground (arith, on, mine, beq_self me, insert-online me id k m on mine)

no_peers-offline : (me : ℕ) (cs : List PeerConnection) → peers_of cs ≡ [] → has_conn me cs ≡ false
no_peers-offline me [] e = refl
no_peers-offline me (c ∷ cs) e = cc

insert-long :
    (id : String) (k : PeerConnection) (m : Assoc String PeerConnection)
    → k.is_online ≡ true
    → AllLong (peers_of (online (insert id k m)))
    → length k.peer.ip ≡ 16
unfolding insert
insert-long id k [] on long = (rw on at long).0
insert-long id k ((j, d) ∷ m) on long = ground (arith, on, long, insert-long id k m on)

remove_peer-news :
    (s : Server) (lost : ℕ) (id : String)
    → find_conn lost s.peers ≡ id
    → id ≢ ""
    → (remove_peer s lost).1 ≡ some id
unfolding remove_peer
remove_peer-news s lost id found named = ground (arith, found, string_eq.beq_iff id "", named)

module _ (print_ip : Ip → String) (print_time : ℕ → String) (parse_ip : String → Option Ip)
    (print_parse : (ip : Ip) → length ip ≡ 16 → parse_ip (print_ip ip) ≡ some ip) where
  listed-Follows :
      (s : Server) (c : Client) (ps : List Peer) (later me : ℕ)
      → Registry.IsValid s
      → Listens c
      → AllLong ps
      → IsOnline me s
      → get_peers s ≡ ps
      → Follows [] s (deliver print_ip print_time parse_ip c (peer_list (get_peers s)) later)
  unfolding get_peers
  listed-Follows s c [] later me v l long on e =
      ground (arith, on, no_peers-offline me (online s.peers) e)
  listed-Follows s c (p ∷ ps) later me v l long on e = rw e (
      rw (deliver-list print_ip print_time parse_ip print_parse c p ps later l long) (record {
        view = λ j _.
            ap (λ qs. client_view (record c { peers = insert_all qs later [] }) j) (sym e)
            ∙ list-Mirrors s c later v j;
        listens = Listens-peers l _;
      }))

  -- The connection's own list, and then the news of its own registration.
  follow-own :
      (s : Server) (c : Client) (conn : Conn) (id local_ip : String) (now later : ℕ)
      → conn.writable ≡ true
      → follow print_ip print_time parse_ip conn.number c
          (register s conn id local_ip now).writes
          later
        ≡ follow print_ip print_time parse_ip conn.number
            (deliver print_ip print_time parse_ip c
              (peer_list (get_peers (register s conn id local_ip now).server))
              later)
            (broadcast_peer_joined
              (register s conn id local_ip now).server
              (new_peer conn id local_ip now))
            later
  unfolding register
  follow-own s c conn id local_ip now later w = rw w (rw (beq_self conn.number) refl)

  registered-IsOnline :
      (s : Server) (conn : Conn) (id local_ip : String) (now : ℕ)
      → IsOnline conn.number (register s conn id local_ip now).server
  unfolding register
  registered-IsOnline s conn id local_ip now =
      if_cases (λ (h : Handled). IsOnline conn.number h.server) conn.writable (λ _. entered)
        (λ _. entered)
    where
      entered : IsOnline conn.number (enter s conn id local_ip now)
      entered = insert-online conn.number id _ s.peers refl refl

  registered-long :
      (s : Server) (conn : Conn) (id local_ip : String) (now : ℕ)
      → AllLong (get_peers (register s conn id local_ip now).server)
      → length (new_peer conn id local_ip now).ip ≡ 16
  unfolding register get_peers
  registered-long s conn id local_ip now =
      if_cases
        (λ (h : Handled).
          AllLong (peers_of (online h.server.peers))
          → length (new_peer conn id local_ip now).ip ≡ 16)
        conn.writable (λ _. entered) (λ _. entered)
    where
      entered :
          AllLong (peers_of (online (enter s conn id local_ip now).peers))
          → length (new_peer conn id local_ip now).ip ≡ 16
      entered long = insert-long id _ s.peers refl long

  registered-Follows :
      (s : Server) (c : Client) (conn : Conn) (id local_ip : String) (now later : ℕ)
      → Registry.IsValid s
      → Listens c
      → conn.writable ≡ true
      → AllLong (get_peers (register s conn id local_ip now).server)
      → Follows [] (register s conn id local_ip now).server (
          follow print_ip print_time parse_ip conn.number c
            (register s conn id local_ip now).writes
            later)
  registered-Follows s c conn id local_ip now later v l w long =
      rw (follow-own s c conn id local_ip now later w) (
        joined-Follows print_ip print_time parse_ip print_parse conn.number s _ conn id local_ip now
          later (registered-long s conn id local_ip now long)
          (registered-IsOnline s conn id local_ip now)
          (Follows-weaken id (
            listed-Follows (register s conn id local_ip now).server c _ later conn.number
              (Registry.register-IsValid s conn id local_ip now v) l long
              (registered-IsOnline s conn id local_ip now) refl)))

  -- A client with its own handlers registers at a valid registry over a connection that can be written to, and
  -- 16-byte addresses are listed. It handles what is then written to its connection, each of the following
  -- changes before the next: registrations over other connections that can be written to, with 16-byte
  -- addresses, lost connections, cleanups and signs of life, after each of which but the last kind its own
  -- connection is online in the registry. Then it shows for each ID what the registry holds: the address, the
  -- port and the texts of a peer that is online, or none. IP.String and ParseIP undo each other on 16-byte
  -- addresses.
  pub news-Mirrors :
      (s : Server) (c : Client) (conn : Conn) (id local_ip : String) (now later : ℕ) (w : World)
      → Registry.IsValid s
      → Listens c
      → conn.writable ≡ true
      → AllLong (get_peers (register s conn id local_ip now).server)
      → Reach print_ip print_time parse_ip conn.number
          (record {
            server = (register s conn id local_ip now).server;
            client =
                follow print_ip print_time parse_ip conn.number c
                  (register s conn id local_ip now).writes
                  later;
          })
          w
      → (j : String) → client_view w.client j ≡ server_view w.server j
  unfolding among
  news-Mirrors s c conn id local_ip now later w v l on long r j =
      (Reach-Follows print_ip print_time parse_ip print_parse r
          (registered-Follows s c conn id local_ip now later v l on long)).view
        j refl

  -- removePeer's news of an ID are written by a goroutine of their own. When the ID is registered again before
  -- that goroutine runs, a client whose own connection is online handles the news of the registration, with a
  -- 16-byte address over a connection that can be written to, and then those of removePeer: it showed the
  -- new peer, and shows nobody under the ID that the registry lists as online.
  pub late_left-hides :
      (s : Server) (c : Client) (me lost : ℕ) (conn : Conn) (id local_ip : String)
      (now later last : ℕ)
      → Listens c
      → find_conn lost s.peers ≡ id
      → id ≢ ""
      → conn.number ≢ me
      → conn.writable ≡ true
      → length (new_peer conn id local_ip now).ip ≡ 16
      → IsOnline me (register (remove_peer s lost).0 conn id local_ip now).server
      → let again = register (remove_peer s lost).0 conn id local_ip now in
        let told = follow print_ip print_time parse_ip me c again.writes later in
        let hidden =
          follow print_ip print_time parse_ip me told
            (left_writes again.server (remove_peer s lost).1)
            last in
        (client_view told id ≡ some (facts (new_peer conn id local_ip now)))
        × (client_view hidden id ≡ none)
        × (server_view again.server id ≡ some (facts (new_peer conn id local_ip now)))
  unfolding broadcast_peer_joined broadcast_peer_left broadcast_message
  late_left-hides s c me lost conn id local_ip now later last l found named other w long on =
      rw
        (
          follow-register print_ip print_time parse_ip print_parse me (remove_peer s lost).0 c conn
              id local_ip now later other w,
          remove_peer-news s lost id found named,
        )
        (
          joined.0,
          left.0,
          register-view (remove_peer s lost).0 conn id local_ip now id ∙ rw (beq_self id) refl,
        )
    where
      again : Server
      again = (register (remove_peer s lost).0 conn id local_ip now).server

      peer : Peer
      peer = new_peer conn id local_ip now

      told : Client
      told = follow print_ip print_time parse_ip me c (broadcast_peer_joined again peer) later

      joined : (client_view told id ≡ some (facts peer)) × Listens told
      joined =
          broadcast-told print_ip print_time parse_ip print_parse
            (joined-Tells print_ip print_time parse_ip print_parse (new_peer conn id local_ip now)
              long)
            later me (online again.peers) c l on

      hidden : Client
      hidden = follow print_ip print_time parse_ip me told (broadcast_peer_left again id) last

      left : (client_view hidden id ≡ none) × Listens hidden
      left =
          broadcast-told print_ip print_time parse_ip print_parse
            (left-Tells print_ip print_time parse_ip print_parse id) last me (online again.peers)
            told joined.1 on
