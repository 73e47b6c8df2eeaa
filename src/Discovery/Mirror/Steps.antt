-- ===== src/Discovery/Mirror/Steps.antt =====
-- The steps of src/internal/discovery/server.go, and a client that reads what they write to its connection.
use Prim.Native.String.{String}
use peer_mesh.Prelude.{
  ℕ, ◌≡◌, ◌≢◌, refl, sym, ◌∙◌, true, not, Option, none, some, List, [], ◌∷◌, length, arith,
  Bool-cases, inl, inr, ◌==◌, string_eq, nat_eq, if_cases, if◌then◌else◌,
}
use peer_mesh.Prelude.Assoc.{Assoc, lookup, erase, lookup-insert, lookup-erase, beq_self}
use peer_mesh.Net.{Ip}
use peer_mesh.Discovery.Server.{
  PeerConnection, Server, Conn, new_peer, enter, online, broadcast_message, broadcast_peer_joined,
  broadcast_peer_left, register, touch, update_peer_last_seen, find_conn, remove_peer, dead_peers,
  drop_peer, drop_peers, cleanup_dead_peers,
}
use peer_mesh.Discovery.Client.{Client}
use peer_mesh.Discovery.Mirror.{facts, server_view, listed}
use peer_mesh.Discovery.Mirror.Follow.{
  among, Follows, left-Tells, joined-Tells, broadcast-Follows, follow-append,
}
use peer_mesh.Discovery.Mirror.World.{
  World, IsOnline, left_writes, all_left_writes, follow, Step, joins, leaves, cleans, hears, Reach,
  here, next,
}

touch-view :
    (conn now : ℕ) (m : Assoc String PeerConnection) (j : String)
    → listed (lookup j (touch conn now m)) ≡ listed (lookup j m)
unfolding touch lookup
touch-view conn now [] j = refl
touch-view conn now ((id, e) ∷ m) j = ground (arith, touch-view conn now m j)

pub register-view :
    (s : Server) (conn : Conn) (id local_ip : String) (now : ℕ) (j : String)
    → server_view (register s conn id local_ip now).server j
      ≡ (if id == j then some (facts (new_peer conn id local_ip now)) else server_view s j)
unfolding register
register-view s conn id local_ip now j = elim (Bool-cases conn.writable) [
  | inl w ↦ rw w entered
  | inr w ↦ rw w entered
]
  where
    entered :
        server_view (enter s conn id local_ip now) j
        ≡ (if id == j then some (facts (new_peer conn id local_ip now)) else server_view s j)
    entered = rw (lookup-insert id j _ s.peers) (ground arith)

drop_peer-view :
    (s : Server) (id j : String) (found : Option PeerConnection)
    → lookup id s.peers ≡ found
    → server_view (drop_peer s id found) j ≡ (if id == j then none else server_view s j)
unfolding drop_peer
drop_peer-view s id j none e = ground (arith, string_eq.beq_iff id j)
drop_peer-view s id j (some c) e = rw (lookup-erase id j s.peers) (ground arith)

drop_peers-view :
    (s : Server) (ids : List String) (j : String)
    → server_view (drop_peers s ids) j ≡ (if among j ids then none else server_view s j)
unfolding drop_peers among
drop_peers-view s [] j = refl
drop_peers-view s (id ∷ ids) j =
    drop_peers-view (drop_peer s id (lookup id s.peers)) ids j
    ∙ ground (arith, drop_peer-view s id j (lookup id s.peers) refl)

module _ (print_ip : Ip → String) (print_time : ℕ → String) (parse_ip : String → Option Ip)
    (print_parse : (ip : Ip) → length ip ≡ 16 → parse_ip (print_ip ip) ≡ some ip) where
  lefts-Follows :
      (me : ℕ) (s : Server) (ids : List String) (c : Client) (now : ℕ)
      → IsOnline me s
      → ((j : String) → among j ids ≡ true → server_view s j ≡ none)
      → Follows ids s c
      → Follows [] s (follow print_ip print_time parse_ip me c (all_left_writes s ids) now)
  unfolding among broadcast_peer_left broadcast_message
  lefts-Follows me s [] c now on gone f = f
  lefts-Follows me s (id ∷ ids) c now on gone f =
      rw
        (follow-append print_ip print_time parse_ip print_parse me c (broadcast_peer_left s id)
          (all_left_writes s ids) now)
        (lefts-Follows me s ids _ now on (λ j e. gone j (ground (arith, e)))
          (broadcast-Follows print_ip print_time parse_ip print_parse
            (left-Tells print_ip print_time parse_ip print_parse id) s
            (gone id (rw (beq_self id) refl)) now me (online s.peers) ids c on f))

  -- The news of a registration.
  pub joined-Follows :
      (me : ℕ) (s : Server) (c : Client) (conn : Conn) (id local_ip : String) (now later : ℕ)
      → length (new_peer conn id local_ip now).ip ≡ 16
      → IsOnline me (register s conn id local_ip now).server
      → Follows (id ∷ []) (register s conn id local_ip now).server c
      → Follows [] (register s conn id local_ip now).server (
          follow print_ip print_time parse_ip me c
            (broadcast_peer_joined
              (register s conn id local_ip now).server
              (new_peer conn id local_ip now))
            later)
  unfolding broadcast_peer_joined broadcast_message
  joined-Follows me s c conn id local_ip now later long on f =
      broadcast-Follows print_ip print_time parse_ip print_parse
        (joined-Tells print_ip print_time parse_ip print_parse (new_peer conn id local_ip now) long)
        (register s conn id local_ip now).server
        (register-view s conn id local_ip now id ∙ rw (beq_self id) refl) later me _ [] c on f

  -- What another connection's registration writes to the client is its news.
  pub follow-register :
      (me : ℕ) (s : Server) (c : Client) (conn : Conn) (id local_ip : String) (now later : ℕ)
      → conn.number ≢ me
      → conn.writable ≡ true
      → follow print_ip print_time parse_ip me c (register s conn id local_ip now).writes later
        ≡ follow print_ip print_time parse_ip me c
            (broadcast_peer_joined
              (register s conn id local_ip now).server
              (new_peer conn id local_ip now))
            later
  unfolding register
  follow-register me s c conn id local_ip now later other w =
      elim (Bool-cases (conn.number == me)) [
        | inl e ↦ absurd (other ((nat_eq.beq_iff conn.number me).0 e))
        | inr e ↦ rw w (rw e refl)
      ]

  left-Follows :
      (me : ℕ) (w : World) (conn now : ℕ)
      → IsOnline me (remove_peer w.server conn).0
      → Follows [] w.server w.client
      → Follows [] (remove_peer w.server conn).0 (
          follow print_ip print_time parse_ip me w.client
            (left_writes (remove_peer w.server conn).0 (remove_peer w.server conn).1)
            now)
  unfolding remove_peer broadcast_peer_left broadcast_message among
  left-Follows me w conn now on f =
      if_cases
        (λ (r : Server × Option String).
          IsOnline me r.0
          → Follows [] r.0
              (follow print_ip print_time parse_ip me w.client (left_writes r.0 r.1) now))
        (not (find_conn conn w.server.peers == ""))
        (λ _ on'.
          broadcast-Follows print_ip print_time parse_ip print_parse
            (left-Tells print_ip print_time parse_ip print_parse id) erased
            (erased-view id ∙ rw (beq_self id) refl) now me (online erased.peers) [] w.client on'
            (record {
              view = λ j e. f.view j refl ∙ sym (erased-view j ∙ ground (arith, e));
              listens = f.listens;
            }))
        (λ _ on'. f) on
    where
      id : String
      id = find_conn conn w.server.peers

      erased : Server
      erased = record w.server { peers = erase id w.server.peers }

      erased-view :
          (j : String) → server_view erased j ≡ (if id == j then none else server_view w.server j)
      erased-view j = rw (lookup-erase id j w.server.peers) (ground arith)

  cleaned-Follows :
      (me : ℕ) (s : Server) (c : Client) (ids : List String) (later : ℕ)
      → IsOnline me (drop_peers s ids)
      → Follows [] s c
      → Follows []
          (drop_peers s ids)
          (follow print_ip print_time parse_ip me c (all_left_writes (drop_peers s ids) ids) later)
  unfolding among
  cleaned-Follows me s c ids later on f =
      lefts-Follows me (drop_peers s ids) ids c later on
        (λ j e. drop_peers-view s ids j ∙ rw e refl)
        (record {
          view = λ j e. f.view j refl ∙ sym (drop_peers-view s ids j ∙ rw e refl);
          listens = f.listens;
        })

  Step-Follows :
      {me : ℕ} {w x : World}
      → Step print_ip print_time parse_ip me w x
      → Follows [] w.server w.client
      → Follows [] x.server x.client
  unfolding cleanup_dead_peers update_peer_last_seen among
  Step-Follows {me} {w} (joins conn id local_ip now later other writes long on) f =
      rw (follow-register me w.server w.client conn id local_ip now later other writes) (
        joined-Follows me w.server w.client conn id local_ip now later long on (record {
          view = λ j e.
              f.view j refl
              ∙ sym (register-view w.server conn id local_ip now j ∙ ground (arith, e));
          listens = f.listens;
        }))
  Step-Follows {me} {w} (leaves conn now on) f = left-Follows me w conn now on f
  Step-Follows {me} {w} (cleans now later on) f =
      cleaned-Follows me w.server w.client (dead_peers now w.server.peers) later on f
  Step-Follows {me} {w} (hears conn now) f = record {
    view = λ j e. f.view j e ∙ sym (touch-view conn now w.server.peers j);
    listens = f.listens;
  }

  pub Reach-Follows :
      {me : ℕ} {w x : World}
      → Reach print_ip print_time parse_ip me w x
      → Follows [] w.server w.client
      → Follows [] x.server x.client
  Reach-Follows here f = f
  Reach-Follows (next r st) f = Step-Follows st (Reach-Follows r f)
