-- ===== src/Discovery/Server/Connection.antt =====
-- src/internal/discovery/server.go: handleConnection, one connection's loop. What a round meets is an event;
-- the connections that others serve at the same time are not part of it.
use Prim.Native.String.{String}
use peer_mesh.Prelude.{
  ℕ, ◌≡◌, ◌≢◌, refl, sym, ◌∙◌, Bool, true, false, not, Option, none, List, [], ◌∷◌, ◌++◌, ◌⊎◌, inl,
  inr, arith, Bool-cases, ◌==◌, string_eq, nat_eq, if_cases, Result, ok, err,
}
use peer_mesh.Prelude.Assoc.{Assoc, insert, erase}
use peer_mesh.Discovery.Message.{Message}
use peer_mesh.Discovery.Server.{
  PeerConnection, Server, Error, Conn, Write, Handled, enter, register, read_register,
  register_read, handle_register, handle_ping, handle_pong, handle_message, touch,
  update_peer_last_seen, find_conn, remove_peer,
}

-- The stop channel is closed, a read fails, bytes that are no message come, or a message.
pub data Round : Type 0 where
  stopped unread undecoded : Round
  got : Message → ℕ → Round

-- The registry after the rounds, what was written, whether the loop has returned and with that closed the
-- connection, and the ID whose leaving a goroutine then broadcasts.
pub record Served : Type 0 where
  pub server : Server
  pub writes : List Write
  pub returned : Bool
  pub left : Option String

abbrev pub with_writes : List Write → Served → Served
with_writes writes r = record r { writes = writes ++ r.writes }

unfoldable pub handle_connection : Server → Conn → List Round → Served
handle_connection s conn [] = record { server = s; writes = []; returned = false; left = none }
handle_connection s conn (stopped ∷ rounds) = record {
  server = s;
  writes = [];
  returned = true;
  left = none;
}
handle_connection s conn (unread ∷ rounds) =
    let (next, left) = remove_peer s conn.number in
    record { server = next; writes = []; returned = true; left = left }
handle_connection s conn (undecoded ∷ rounds) = handle_connection s conn rounds
handle_connection s conn (got msg now ∷ rounds) =
    let h = handle_message s conn msg now in
    with_writes h.writes (handle_connection h.server conn rounds)

-- The connection's entries all stand under one ID.
abbrev OnlyUnder : ℕ → String → Assoc String PeerConnection → Type 0
OnlyUnder n id [] = Unit
OnlyUnder n id ((j, c) ∷ m) = (c.conn ≡ n → j ≡ id) × OnlyUnder n id m

-- No entry is the connection's.
abbrev pub IsAbsent : ℕ → Assoc String PeerConnection → Type 0
IsAbsent n [] = Unit
IsAbsent n ((j, c) ∷ m) = (c.conn ≢ n) × IsAbsent n m

-- Before the stop, every message of type register that can be read names the ID.
abbrev pub RegistersAs : String → List Round → Type 0
RegistersAs id [] = Unit
RegistersAs id (stopped ∷ rounds) = ⊥
RegistersAs id (got msg now ∷ rounds) =
    (msg.type ≡ "register"
      → (peer_id local_ip : String) → read_register msg.payload ≡ ok (peer_id, local_ip)
      → peer_id ≡ id)
    × RegistersAs id rounds
RegistersAs id (round ∷ rounds) = RegistersAs id rounds

IsAbsent-OnlyUnder :
    (n : ℕ) (id : String) (m : Assoc String PeerConnection) → IsAbsent n m → OnlyUnder n id m
IsAbsent-OnlyUnder n id [] a = tt
IsAbsent-OnlyUnder n id ((j, c) ∷ m) a = (λ e. absurd (a.0 e), IsAbsent-OnlyUnder n id m a.1)

insert-OnlyUnder :
    (n : ℕ) (id key : String) (c : PeerConnection) (m : Assoc String PeerConnection)
    → key ≡ id
    → OnlyUnder n id m
    → OnlyUnder n id (insert key c m)
unfolding insert
insert-OnlyUnder n id key c [] k o = (λ e. k, tt)
insert-OnlyUnder n id key c ((j, d) ∷ m) k o =
    if_cases (OnlyUnder n id) (j == key) (λ _. (λ e. k, o.1))
      (λ _. (o.0, insert-OnlyUnder n id key c m k o.1))

touch-OnlyUnder :
    (n : ℕ) (id : String) (conn now : ℕ) (m : Assoc String PeerConnection)
    → OnlyUnder n id m
    → OnlyUnder n id (touch conn now m)
unfolding touch
touch-OnlyUnder n id conn now [] o = tt
touch-OnlyUnder n id conn now ((j, c) ∷ m) o =
    if_cases (OnlyUnder n id) (c.conn == conn) (λ _. o)
      (λ _. (o.0, touch-OnlyUnder n id conn now m o.1))

erase-IsAbsent :
    (n : ℕ) (id : String) (m : Assoc String PeerConnection)
    → OnlyUnder n id m
    → IsAbsent n (erase id m)
unfolding erase
erase-IsAbsent n id [] o = tt
erase-IsAbsent n id ((j, c) ∷ m) o =
    if_cases (IsAbsent n) (j == id) (λ _. erase-IsAbsent n id m o.1)
      (λ ne. (λ e. cc (ne, (string_eq.beq_iff j id).1 (o.0 e)), erase-IsAbsent n id m o.1))

find_conn_cases :
    (n : ℕ) (id : String) (m : Assoc String PeerConnection)
    → OnlyUnder n id m
    → (find_conn n m ≡ id) ⊎ ((find_conn n m ≡ "") × IsAbsent n m)
unfolding find_conn
find_conn_cases n id [] o = inr (refl, tt)
find_conn_cases n id ((j, c) ∷ m) o = elim (Bool-cases (c.conn == n)) [
  | inl e ↦ inl (rw e (o.0 ((nat_eq.beq_iff c.conn n).0 e)))
  | inr ne ↦ elim (find_conn_cases n id m o.1) [
    | inl found ↦ inl (rw ne found)
    | inr (e, a) ↦ inr (rw ne e, (λ q. cc (ne, (nat_eq.beq_iff c.conn n).1 q), a))
  ]
]

remove_peer-IsAbsent :
    (s : Server) (n : ℕ) (id : String)
    → id ≢ ""
    → OnlyUnder n id s.peers
    → IsAbsent n (remove_peer s n).0.peers
unfolding remove_peer
remove_peer-IsAbsent s n id ne o = elim (find_conn_cases n id s.peers o) [
  | inl e ↦
      if_cases (λ (r : Server × Option String). IsAbsent n r.0.peers)
        (not (find_conn n s.peers == "")) (λ _. rw e (erase-IsAbsent n id s.peers o))
        (λ none_found. absurd (
          ne (sym e ∙ (string_eq.beq_iff (find_conn n s.peers) "").0 (ground (arith, none_found)))))
  | inr (e, a) ↦ rw e a
]

register_read-OnlyUnder :
    (s : Server) (conn : Conn) (n now : ℕ) (id : String) (r : Result Error (String × String))
    → ((peer_id local_ip : String) → r ≡ ok (peer_id, local_ip) → peer_id ≡ id)
    → OnlyUnder n id s.peers
    → OnlyUnder n id (register_read s conn now r).server.peers
unfolding register_read register
register_read-OnlyUnder s conn n now id (err e) h o = o
register_read-OnlyUnder s conn n now id (ok (peer_id, local_ip)) h o =
    elim (Bool-cases conn.writable) [ inl w ↦ rw w entered | inr w ↦ rw w entered ]
  where
    entered : OnlyUnder n id (enter s conn peer_id local_ip now).peers
    entered = insert-OnlyUnder n id peer_id _ s.peers (h peer_id local_ip refl) o

handle_message-OnlyUnder :
    (s : Server) (conn : Conn) (n : ℕ) (id : String) (msg : Message) (now : ℕ)
    → (msg.type ≡ "register"
        → (peer_id local_ip : String) → read_register msg.payload ≡ ok (peer_id, local_ip)
        → peer_id ≡ id)
    → OnlyUnder n id s.peers
    → OnlyUnder n id (handle_message s conn msg now).server.peers
unfolding handle_message handle_register handle_ping handle_pong update_peer_last_seen
handle_message-OnlyUnder s conn n id msg now h o =
    if_cases (λ (r : Handled). OnlyUnder n id r.server.peers) (msg.type == "register")
      (λ e.
        register_read-OnlyUnder s conn n now id (read_register msg.payload)
          (h ((string_eq.beq_iff msg.type "register").0 e)) o)
      (λ _.
        if_cases (λ (r : Handled). OnlyUnder n id r.server.peers) (msg.type == "ping")
          (λ _. touch-OnlyUnder n id conn.number now s.peers o)
          (λ _.
            if_cases (λ (r : Handled). OnlyUnder n id r.server.peers) (msg.type == "pong")
              (λ _. touch-OnlyUnder n id conn.number now s.peers o) (λ _. o)))

served-IsAbsent :
    (s : Server) (conn : Conn) (id : String) (rounds : List Round)
    → id ≢ ""
    → OnlyUnder conn.number id s.peers
    → RegistersAs id rounds
    → IsAbsent conn.number (handle_connection s conn (rounds ++ unread ∷ [])).server.peers
unfolding handle_connection
served-IsAbsent s conn id [] ne o r = remove_peer-IsAbsent s conn.number id ne o
served-IsAbsent s conn id (unread ∷ rounds) ne o r = remove_peer-IsAbsent s conn.number id ne o
served-IsAbsent s conn id (undecoded ∷ rounds) ne o r = served-IsAbsent s conn id rounds ne o r
served-IsAbsent s conn id (stopped ∷ rounds) ne o r = absurd r
served-IsAbsent s conn id (got msg now ∷ rounds) ne o r =
    served-IsAbsent (handle_message s conn msg now).server conn id rounds ne
      (handle_message-OnlyUnder s conn conn.number id msg now r.0 o) r.1

-- A connection that the registry does not know, and whose messages of type register that can be read all
-- name one ID that is not empty: once a read on it fails, before the server is stopped, no entry of
-- the registry is the connection's, whatever messages of other types it has sent.
pub handle_connection-leaves :
    (s : Server) (conn : Conn) (id : String) (rounds : List Round)
    → id ≢ ""
    → IsAbsent conn.number s.peers
    → RegistersAs id rounds
    → IsAbsent conn.number (handle_connection s conn (rounds ++ unread ∷ [])).server.peers
handle_connection-leaves s conn id rounds ne a r =
    served-IsAbsent s conn id rounds ne (IsAbsent-OnlyUnder conn.number id s.peers a) r
