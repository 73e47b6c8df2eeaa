-- ===== src/Discovery/Client/Reading.antt =====
-- What the client reads out of the server's messages.
use Prim.Native.String.{String}
use peer_mesh.Prelude.{
  ℕ, ◌≡◌, ◌≢◌, refl, Bool, true, Option, none, some, List, [], ◌∷◌, length, arith, string_eq,
  returns, fails, panics,
}
use peer_mesh.Prelude.Assoc.{Assoc, lookup, insert}
use peer_mesh.Net.{Ip}
use peer_mesh.Discovery.Message.{Peer, Json, field, end, index, null}
use peer_mesh.Discovery.Server.{Sent}
use peer_mesh.Discovery.Wire.{
  unless_empty, items_json, list_message, joined_message, left_message, sent_message, untyped,
}
use peer_mesh.Discovery.Client.{
  Client, handles_peer_list, handles_peer_joined, handles_peer_left, handles_ping, no_handler,
  invalid_peers_data, parsed_ip, text_or_empty, read_peer, read_peers, handle_message,
  handle_peer_list, handle_peer_joined, handle_peer_left, handle_ping, mark_left,
}

-- The client's entry for a peer of the server.
abbrev pub received : Peer → ℕ → Peer
received p now = record p { last_seen = now; is_online = true }

-- The entries that the loop of handlePeerList writes, one after the other.
abbrev pub insert_all : List Peer → ℕ → Assoc String Peer → Assoc String Peer
insert_all [] now m = m
insert_all (p ∷ ps) now m = insert_all ps now (insert p.id (received p now) m)

-- The addresses that net.ParseIP returns and the server keeps are in the 16-byte form.
abbrev pub AllLong : List Peer → Type 0
AllLong [] = Unit
AllLong (p ∷ ps) = (length p.ip ≡ 16) × AllLong ps

-- What the server sends names addresses in the 16-byte form.
abbrev pub IsLong : Sent → Type 0
IsLong (Sent.peer_list ps) = AllLong ps
IsLong (Sent.peer_joined p) = length p.ip ≡ 16
IsLong sent = Unit

-- A client with its own handlers, and a connection.
pub record Listens (c : Client) : Type 0 where
  pub on_list : lookup "peer_list" c.handlers ≡ some handles_peer_list
  pub on_joined : lookup "peer_joined" c.handlers ≡ some handles_peer_joined
  pub on_left : lookup "peer_left" c.handlers ≡ some handles_peer_left
  pub on_ping : lookup "ping" c.handlers ≡ some handles_ping
  pub on_pong : lookup "pong" c.handlers ≡ none
  pub linked : c.conn ≢ none

optional_public :
    (p : Peer)
    → text_or_empty (
        index "public_ip"
          (unless_empty "public_ip" p.public_ip (unless_empty "local_ip" p.local_ip end)))
      ≡ p.public_ip
optional_public p =
    ground (arith, string_eq.beq_iff p.public_ip "", string_eq.beq_iff p.local_ip "")

optional_local :
    (p : Peer)
    → text_or_empty (
        index "local_ip"
          (unless_empty "public_ip" p.public_ip (unless_empty "local_ip" p.local_ip end)))
      ≡ p.local_ip
optional_local p = ground (arith, string_eq.beq_iff p.public_ip "", string_eq.beq_iff p.local_ip "")

module _ (print_ip : Ip → String) (print_time : ℕ → String) (parse_ip : String → Option Ip)
    (print_parse : (ip : Ip) → length ip ≡ 16 → parse_ip (print_ip ip) ≡ some ip) where
  parsed_ip-print : (ip : Ip) → length ip ≡ 16 → parsed_ip parse_ip (print_ip ip) ≡ ip
  parsed_ip-print ip h = rw (print_parse ip h, parsed_ip) refl

  read_peer-joined :
      (p : Peer) (now : ℕ)
      → length p.ip ≡ 16
      → read_peer parse_ip
          (field "id" (Json.text p.id) (
            field "ip" (Json.text (print_ip p.ip)) (
              field "port" (Json.number p.port) (
                field "public_ip"
                  (Json.text p.public_ip)
                  (field "local_ip" (Json.text p.local_ip) end)))))
          now
        ≡ returns (received p now)
  unfolding read_peer
  read_peer-joined p now h = rw (parsed_ip-print p.ip h) refl

  read_peer-json :
      (p : Peer) (now : ℕ)
      → length p.ip ≡ 16
      → read_peer parse_ip
          (field "id" (Json.text p.id) (
            field "ip" (Json.text (print_ip p.ip)) (
              field "port" (Json.number p.port) (
                field "last_seen" (Json.text (print_time p.last_seen)) (
                  field "is_online" (Json.boolean p.is_online) (
                    unless_empty "public_ip" p.public_ip
                      (unless_empty "local_ip" p.local_ip end)))))))
          now
        ≡ returns (received p now)
  unfolding read_peer
  read_peer-json p now h = rw (parsed_ip-print p.ip h, optional_public p, optional_local p) refl

  read_peers-items :
      (ps : List Peer) (now : ℕ) (m : Assoc String Peer)
      → AllLong ps
      → read_peers parse_ip (items_json print_ip print_time ps) now m
        ≡ returns (insert_all ps now m)
  unfolding read_peers
  read_peers-items [] now m h = refl
  read_peers-items (p ∷ ps) now m h =
      rw (read_peer-json p now h.0) (read_peers-items ps now (insert p.id (received p now) m) h.1)

  module _ (c : Client) (l : Listens c) (now : ℕ) (writable : Bool) where
    pub handle_message-list :
        (p : Peer) (ps : List Peer)
        → AllLong (p ∷ ps)
        → handle_message parse_ip c (list_message print_ip print_time (p ∷ ps)) now writable
          ≡ returns (record { client = record c { peers = insert_all (p ∷ ps) now [] }; sent = [] })
    unfolding handle_message handle_peer_list
    handle_message-list p ps h = rw l.on_list (rw (read_peers-items (p ∷ ps) now [] h) refl)

    pub handle_message-joined :
        (p : Peer)
        → length p.ip ≡ 16
        → handle_message parse_ip c (joined_message print_ip p) now writable
          ≡ returns (record {
            client = record c { peers = insert p.id (received p now) c.peers };
            sent = [];
          })
    unfolding handle_message handle_peer_joined
    handle_message-joined p h = rw l.on_joined (rw (read_peer-joined p now h) refl)

    pub handle_message-left :
        (id : String)
        → handle_message parse_ip c (left_message id) now writable
          ≡ returns (record { client = mark_left (lookup id c.peers) c id now; sent = [] })
    unfolding handle_message handle_peer_left
    handle_message-left id = rw l.on_left refl

    handle_message-pong :
        handle_message parse_ip c (untyped "pong" null) now writable ≡ fails (no_handler "pong")
    unfolding handle_message
    handle_message-pong = rw l.on_pong refl

    handle_message-ping :
        handle_message parse_ip c (untyped "ping" null) now writable ≡ handle_ping c writable
    unfolding handle_message
    handle_message-ping = rw l.on_ping refl

    handle_message-no_peers :
        handle_message parse_ip c (list_message print_ip print_time []) now writable
        ≡ fails invalid_peers_data
    unfolding handle_message handle_peer_list
    handle_message-no_peers = rw l.on_list refl

    handle_ping-safe : handle_ping c writable ≢ panics
    unfolding handle_ping
    handle_ping-safe = ground (arith, l.linked)

    -- No message that the server writes makes a connected client with its own handlers panic, whether or
    -- not the client's answer can be written; IP.String and ParseIP undo each other on 16-byte
    -- addresses.
    pub handle_message-safe :
        (sent : Sent)
        → IsLong sent
        → handle_message parse_ip c (sent_message print_ip print_time sent) now writable ≢ panics
    unfolding sent_message
    handle_message-safe Sent.ping h = rw handle_message-ping handle_ping-safe
    handle_message-safe Sent.pong h = rw handle_message-pong (λ e. cc)
    handle_message-safe (Sent.peer_list []) h = rw handle_message-no_peers (λ e. cc)
    handle_message-safe (Sent.peer_list (p ∷ ps)) h = rw (handle_message-list p ps h) (λ e. cc)
    handle_message-safe (Sent.peer_joined p) h = rw (handle_message-joined p h) (λ e. cc)
    handle_message-safe (Sent.peer_left id) h = rw (handle_message-left id) (λ e. cc)
