-- ===== src/Discovery/Server/Registry.antt =====
-- The server's registry of peers.
use Prim.Native.String.{String}
use peer_mesh.Prelude.{
  ℕ, ◌≡◌, refl, ap, ◌∙◌, Bool, not, Option, none, some, List, [], ◌∷◌, arith, if_cases, ◌==◌,
  string_eq, nat_eq, Result, ok, err,
}
use peer_mesh.Prelude.Assoc.{
  Assoc, lookup, insert, erase, Distinct, insert-Distinct, erase-Distinct,
}
use peer_mesh.Discovery.Message.{Peer, Message}
use peer_mesh.Discovery.Server.{
  PeerConnection, Server, Handled, Error, register_read, Conn, enter, register, read_register,
  handle_register, handle_ping, handle_pong, handle_message, touch, update_peer_last_seen,
  find_conn, remove_peer, beat, beat_all, send_heartbeats, drop_peer, drop_peers,
  cleanup_dead_peers,
}

-- Every entry stands under the ID of its connection and of its peer.
abbrev pub Keyed : Assoc String PeerConnection → Type 0
Keyed [] = Unit
Keyed ((id, c) ∷ m) = ((c.id ≡ id) × (c.peer.id ≡ id)) × Keyed m

pub record IsValid (s : Server) : Type 0 where
  pub distinct : Distinct s.peers
  pub keyed : Keyed s.peers

insert-Keyed :
    (id : String) (c : PeerConnection) (m : Assoc String PeerConnection)
    → (c.id ≡ id) × (c.peer.id ≡ id)
    → Keyed m
    → Keyed (insert id c m)
unfolding insert
insert-Keyed id c [] e k = (e, tt)
insert-Keyed id c ((j, d) ∷ m) e k =
    if_cases Keyed (j == id) (λ _. (e, k.1)) (λ _. (k.0, insert-Keyed id c m e k.1))

erase-Keyed : (id : String) (m : Assoc String PeerConnection) → Keyed m → Keyed (erase id m)
unfolding erase
erase-Keyed id [] k = tt
erase-Keyed id ((j, d) ∷ m) k =
    if_cases Keyed (j == id) (λ _. erase-Keyed id m k.1) (λ _. (k.0, erase-Keyed id m k.1))

touch-Keyed : (conn now : ℕ) (m : Assoc String PeerConnection) → Keyed m → Keyed (touch conn now m)
unfolding touch
touch-Keyed conn now [] k = tt
touch-Keyed conn now ((j, d) ∷ m) k =
    if_cases Keyed (d.conn == conn) (λ _. k) (λ _. (k.0, touch-Keyed conn now m k.1))

touch-absent :
    (conn now : ℕ) (id : String) (m : Assoc String PeerConnection)
    → lookup id m ≡ none
    → lookup id (touch conn now m) ≡ none
unfolding touch lookup
touch-absent conn now id [] h = refl
touch-absent conn now id ((j, d) ∷ m) h = ground (arith, touch-absent conn now id m)

touch-Distinct :
    (conn now : ℕ) (m : Assoc String PeerConnection) → Distinct m → Distinct (touch conn now m)
unfolding touch
touch-Distinct conn now [] k = tt
touch-Distinct conn now ((j, d) ∷ m) k =
    if_cases Distinct (d.conn == conn) (λ _. k)
      (λ _. (touch-absent conn now j m k.0, touch-Distinct conn now m k.1))

module _ (writable : ℕ → Bool) where
  beat-ids :
      (c : PeerConnection) → ((beat writable c).id ≡ c.id) × ((beat writable c).peer ≡ c.peer)
  beat-ids c = (
    if_cases (λ (d : PeerConnection). d.id ≡ c.id) c.is_online
        (λ _.
          if_cases (λ (d : PeerConnection). d.id ≡ c.id) (writable c.conn) (λ _. refl) (λ _. refl))
        (λ _. refl),
    if_cases (λ (d : PeerConnection). d.peer ≡ c.peer) c.is_online
        (λ _.
          if_cases (λ (d : PeerConnection). d.peer ≡ c.peer) (writable c.conn) (λ _. refl)
            (λ _. refl))
        (λ _. refl),
  )

  beat_all-Keyed : (m : Assoc String PeerConnection) → Keyed m → Keyed (beat_all writable m)
  unfolding beat_all
  beat_all-Keyed [] k = tt
  beat_all-Keyed ((j, d) ∷ m) k =
      let (same, peer) = beat-ids d in
      ((same ∙ k.0.0, ap (λ (p : Peer). p.id) peer ∙ k.0.1), beat_all-Keyed m k.1)

  beat_all-absent :
      (id : String) (m : Assoc String PeerConnection)
      → lookup id m ≡ none
      → lookup id (beat_all writable m) ≡ none
  unfolding beat_all lookup
  beat_all-absent id [] h = refl
  beat_all-absent id ((j, d) ∷ m) h = ground (arith, beat_all-absent id m)

  beat_all-Distinct :
      (m : Assoc String PeerConnection) → Distinct m → Distinct (beat_all writable m)
  unfolding beat_all
  beat_all-Distinct [] k = tt
  beat_all-Distinct ((j, d) ∷ m) k = (beat_all-absent j m k.0, beat_all-Distinct m k.1)

-- What happens to the registry, a removal by the connection that was lost.
pub data Op : Type 0 where
  receives : Conn → Message → ℕ → Op
  loses : ℕ → Op
  beats : (ℕ → Bool) → Op
  cleans : ℕ → Op

unfoldable pub step : Server → Op → Server
step s (receives conn msg now) = (handle_message s conn msg now).server
step s (loses conn) = (remove_peer s conn).0
step s (beats writable) = (send_heartbeats s writable).0
step s (cleans now) = (cleanup_dead_peers s now).0

unfoldable pub run : Server → List Op → Server
run s [] = s
run s (op ∷ ops) = run (step s op) ops

touch-IsValid : (s : Server) (conn now : ℕ) → IsValid s → IsValid (update_peer_last_seen s conn now)
unfolding update_peer_last_seen
touch-IsValid s conn now v = record {
  distinct = touch-Distinct conn now s.peers v.distinct;
  keyed = touch-Keyed conn now s.peers v.keyed;
}

erase-IsValid :
    (s : Server) (id : String) (closed : List ℕ)
    → IsValid s
    → IsValid (record { peers = erase id s.peers; closed = closed })
erase-IsValid s id closed v = record {
  distinct = erase-Distinct id s.peers v.distinct;
  keyed = erase-Keyed id s.peers v.keyed;
}

pub register-IsValid :
    (s : Server) (conn : Conn) (id local_ip : String) (now : ℕ)
    → IsValid s
    → IsValid (register s conn id local_ip now).server
unfolding register
register-IsValid s conn id local_ip now v =
    if_cases (λ (h : Handled). IsValid h.server) conn.writable (λ _. entered) (λ _. entered)
  where
    entered : IsValid (enter s conn id local_ip now)
    entered = record {
      distinct = insert-Distinct id _ s.peers v.distinct;
      keyed = insert-Keyed id _ s.peers (refl, refl) v.keyed;
    }

register_read-IsValid :
    (s : Server) (conn : Conn) (now : ℕ) (r : Result Error (String × String))
    → IsValid s
    → IsValid (register_read s conn now r).server
unfolding register_read
register_read-IsValid s conn now (err e) v = v
register_read-IsValid s conn now (ok (id, local_ip)) v = register-IsValid s conn id local_ip now v

handle_register-IsValid :
    (s : Server) (conn : Conn) (msg : Message) (now : ℕ)
    → IsValid s
    → IsValid (handle_register s conn msg now).server
unfolding handle_register
handle_register-IsValid s conn msg now v =
    register_read-IsValid s conn now (read_register msg.payload) v

handle_message-IsValid :
    (s : Server) (conn : Conn) (msg : Message) (now : ℕ)
    → IsValid s
    → IsValid (handle_message s conn msg now).server
unfolding handle_message handle_ping handle_pong
handle_message-IsValid s conn msg now v =
    if_cases (λ (h : Handled). IsValid h.server) (msg.type == "register")
      (λ _. handle_register-IsValid s conn msg now v)
      (λ _.
        if_cases (λ (h : Handled). IsValid h.server) (msg.type == "ping")
          (λ _. touch-IsValid s conn.number now v)
          (λ _.
            if_cases (λ (h : Handled). IsValid h.server) (msg.type == "pong")
              (λ _. touch-IsValid s conn.number now v) (λ _. v)))

drop_peer-IsValid :
    (s : Server) (id : String) (found : Option PeerConnection)
    → IsValid s
    → IsValid (drop_peer s id found)
unfolding drop_peer
drop_peer-IsValid s id none v = v
drop_peer-IsValid s id (some c) v = erase-IsValid s id _ v

drop_peers-IsValid : (s : Server) (ids : List String) → IsValid s → IsValid (drop_peers s ids)
unfolding drop_peers
drop_peers-IsValid s [] v = v
drop_peers-IsValid s (id ∷ ids) v =
    drop_peers-IsValid (drop_peer s id (lookup id s.peers)) ids
      (drop_peer-IsValid s id (lookup id s.peers) v)

step-IsValid : (s : Server) (op : Op) → IsValid s → IsValid (step s op)
unfolding step remove_peer send_heartbeats cleanup_dead_peers
step-IsValid s (receives conn msg now) v = handle_message-IsValid s conn msg now v
step-IsValid s (loses conn) v =
    if_cases (λ (r : Server × Option String). IsValid r.0) (not (find_conn conn s.peers == ""))
      (λ _. erase-IsValid s (find_conn conn s.peers) s.closed v) (λ _. v)
step-IsValid s (beats writable) v = record {
  distinct = beat_all-Distinct writable s.peers v.distinct;
  keyed = beat_all-Keyed writable s.peers v.keyed;
}
step-IsValid s (cleans now) v = drop_peers-IsValid s _ v

-- A server without peers.
abbrev pub empty : Server
empty = record { peers = []; closed = [] }

run_from-IsValid : (s : Server) (ops : List Op) → IsValid s → IsValid (run s ops)
unfolding run
run_from-IsValid s [] v = v
run_from-IsValid s (op ∷ ops) v = run_from-IsValid (step s op) ops (step-IsValid s op v)

-- After any messages, lost connections, heartbeats and cleanups from an empty registry, each ID has at
-- most one entry, and the entry and its peer bear that ID.
pub registry-IsValid : (ops : List Op) → IsValid (run empty ops)
registry-IsValid ops = run_from-IsValid empty ops (record { distinct = tt; keyed = tt })
