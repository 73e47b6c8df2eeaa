-- ===== src/Discovery/Client.antt =====
-- src/internal/discovery/client.go: Client. The mutex makes each handler one step; the locks of Connect
-- themselves are in Discovery.Locks. net.ParseIP is a parameter, and a WebSocket connection a number.
pub mod Reading
use Prim.Native.String.{String}
use peer_mesh.Prelude.{
  ℕ, zero, suc, ◌+◌, ◌-◌, Bool, true, false, not, Option, none, some, List, [], ◌∷◌, length, ◌==◌,
  string_eq, if◌then◌else◌, Result, ok, err, Outcome, returns, fails, panics,
}
use peer_mesh.Prelude.Int.{ℤ}
use peer_mesh.Prelude.Outcomes.{◌>>=◌, checked, asserted}
use peer_mesh.Prelude.Assoc.{Assoc, lookup, insert}
use peer_mesh.Net.{Ip}
use peer_mesh.Discovery.Message.{
  Peer, Json, null, object, Items, nil, cons, Fields, Message, index, as_text, as_number, as_object,
  as_array,
}

pub data Error : Type 0 where
  url_required id_required already_connected invalid_url dial_failed close_failed : Error
  not_connected send_failed invalid_peer_list invalid_peers_data : Error
  invalid_peer_joined invalid_peer_left : Error
  no_handler : String → Error
  handler_failed : ℕ → Error

-- The client's own handlers, or a function that its user registers.
pub data Handler : Type 0 where
  handles_peer_list handles_peer_joined handles_peer_left handles_ping : Handler
  custom : (Message → Option Error) → Handler

pub record Client : Type 0 where
  pub server_url : String
  pub conn : Option ℕ
  pub peer_id : String
  pub local_ip : Ip
  pub peers : Assoc String Peer
  pub stop_closed : Bool
  pub is_connected : Bool
  pub reconnect : Bool
  pub handlers : Assoc String Handler

pub record ClientConfig : Type 0 where
  pub server_url : String
  pub peer_id : String
  pub local_ip : Ip
  pub reconnect : Bool

unfoldable pub register_message_handler : Client → String → Handler → Client
register_message_handler c type handler = record c { handlers = insert type handler c.handlers }

unfoldable pub register_default_handlers : Client → Client
unfolding register_message_handler
register_default_handlers c =
    register_message_handler
      (register_message_handler
        (register_message_handler (register_message_handler c "peer_list" handles_peer_list)
          "peer_joined" handles_peer_joined)
        "peer_left" handles_peer_left)
      "ping" handles_ping

unfoldable pub new_client : ClientConfig → Result Error Client
unfolding register_default_handlers
new_client config =
    if config.server_url == ""
    then err url_required
    else if config.peer_id == ""
    then err id_required
    else ok (
        register_default_handlers (record {
          server_url = config.server_url;
          conn = none;
          peer_id = config.peer_id;
          local_ip = config.local_ip;
          peers = [];
          stop_closed = false;
          is_connected = false;
          reconnect = config.reconnect;
          handlers = [];
        }))

-- A closed channel cannot be closed again. `closes` is whether the connection closes without an error.
unfoldable pub disconnect : Client → Bool → Outcome Error Unit × Client
disconnect c closes =
    if not c.is_connected
    then (returns tt, c)
    else if c.stop_closed
    then (panics, record c { is_connected = false })
    else elim c.conn [
      | none ↦ (returns tt, record c { is_connected = false; stop_closed = true })
      | some n ↦ (
        if closes then returns tt else fails close_failed,
        record c { is_connected = false; stop_closed = true; conn = none },
      )
    ]

unfoldable pub get_peer : Client → String → Option Peer
get_peer c id = lookup id c.peers

abbrev pub all_peers : Assoc String Peer → List Peer
all_peers [] = []
all_peers ((id, p) ∷ m) = p ∷ all_peers m

unfoldable pub get_peers : Client → List Peer
get_peers c = all_peers c.peers

-- What SendMessage writes; `writable` is whether the write succeeds.
unfoldable pub send_message : Client → Message → Bool → Outcome Error (List Message)
send_message c msg writable = if not c.is_connected then fails not_connected else elim c.conn [
  | none ↦ panics
  | some n ↦ if writable then returns (msg ∷ []) else fails send_failed
]

-- A handler's client and what it has written. When it fails, the client is as before.
pub record Reply : Type 0 where
  pub client : Client
  pub sent : List Message

abbrev pub pong_message : Client → Message
pong_message c = record { type = "pong"; payload = null; from = c.peer_id }

unfoldable pub handle_ping : Client → Bool → Outcome Error Reply
unfolding send_message
handle_ping c writable = do
  sent ← send_message c (pong_message c) writable
  returns (record { client = c; sent = sent })

abbrev pub text_or_empty : Json → String
text_or_empty v = elim (as_text v) [ none ↦ "" | some s ↦ s ]

-- An entry that is there goes offline.
unfoldable pub mark_left : Option Peer → Client → String → ℕ → Client
mark_left none c id now = c
mark_left (some p) c id now = record c {
  peers = insert id (record p { is_online = false; last_seen = now }) c.peers;
}

unfoldable pub handle_peer_left : Client → Json → ℕ → Outcome Error Reply
unfolding mark_left
handle_peer_left c payload now = do
  fields ← checked (as_object payload) invalid_peer_left
  id ← asserted (as_text (index "id" fields))
  returns (record { client = mark_left (lookup id c.peers) c id now; sent = [] })

module _ (parse_ip : String → Option Ip) where
  -- A text that is no address gives a nil IP.
  abbrev pub parsed_ip : String → Ip
  parsed_ip s = elim (parse_ip s) [ none ↦ [] | some ip ↦ ip ]

  -- The fields of a peer, of which three are asserted to be there.
  unfoldable pub read_peer : Fields → ℕ → Outcome Error Peer
  read_peer fields now = do
    id ← asserted (as_text (index "id" fields))
    ip ← asserted (as_text (index "ip" fields))
    port ← asserted (as_number (index "port" fields))
    returns (record {
      id = id;
      ip = parsed_ip ip;
      port = port;
      last_seen = now;
      is_online = true;
      public_ip = text_or_empty (index "public_ip" fields);
      local_ip = text_or_empty (index "local_ip" fields);
    })

  -- The loop of handlePeerList, which skips what is no object.
  unfoldable pub read_peers : Items → ℕ → Assoc String Peer → Outcome Error (Assoc String Peer)
  read_peers nil now peers = returns peers
  read_peers (cons (object fields) items) now peers = do
    p ← read_peer fields now
    read_peers items now (insert p.id p peers)
  read_peers (cons v items) now peers = read_peers items now peers

  unfoldable pub handle_peer_list : Client → Json → ℕ → Outcome Error Reply
  handle_peer_list c payload now = do
    fields ← checked (as_object payload) invalid_peer_list
    items ← checked (as_array (index "peers" fields)) invalid_peers_data
    peers ← read_peers items now []
    returns (record { client = record c { peers = peers }; sent = [] })

  unfoldable pub handle_peer_joined : Client → Json → ℕ → Outcome Error Reply
  handle_peer_joined c payload now = do
    fields ← checked (as_object payload) invalid_peer_joined
    p ← read_peer fields now
    returns (record { client = record c { peers = insert p.id p c.peers }; sent = [] })

  unfoldable pub run_handler : Option Handler → Client → Message → ℕ → Bool → Outcome Error Reply
  run_handler none c msg now writable = fails (no_handler msg.type)
  run_handler (some handles_peer_list) c msg now writable = handle_peer_list c msg.payload now
  run_handler (some handles_peer_joined) c msg now writable = handle_peer_joined c msg.payload now
  run_handler (some handles_peer_left) c msg now writable = handle_peer_left c msg.payload now
  run_handler (some handles_ping) c msg now writable = handle_ping c writable
  run_handler (some (custom f)) c msg now writable = elim (f msg) [
    | none ↦ returns (record { client = c; sent = [] })
    | some e ↦ fails e
  ]

  unfoldable pub handle_message : Client → Message → ℕ → Bool → Outcome Error Reply
  unfolding run_handler
  handle_message c msg now writable = run_handler (lookup msg.type c.handlers) c msg now writable

pub record Stats : Type 0 where
  pub connected : Bool
  pub peer_id : String
  pub server_url : String
  pub total_peers : ℕ
  pub online_peers : ℕ
  pub offline_peers : ℕ

abbrev pub count_online : Assoc String Peer → ℕ
count_online [] = 0
count_online ((id, p) ∷ m) = if p.is_online then count_online m + 1 else count_online m

unfoldable pub get_stats : Client → Stats
get_stats c = record {
  connected = c.is_connected;
  peer_id = c.peer_id;
  server_url = c.server_url;
  total_peers = length c.peers;
  online_peers = count_online c.peers;
  offline_peers = length c.peers - count_online c.peers;
}

-- What a run of the functions above opens.
unfoldable pub client_runs : ℕ
unfolding lookup insert new_client disconnect get_peer get_peers handle_ping handle_peer_left
    read_peer read_peers handle_peer_list handle_peer_joined handle_message get_stats
client_runs = 0
