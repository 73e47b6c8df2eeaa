-- ===== src/Discovery/Session.antt =====
-- src/internal/discovery/client.go: Connect, and the goroutine handleMessages with its reconnectToServer. What
-- a round of a loop meets is an event, and so is a Disconnect that comes between two rounds.
pub mod Lost
pub mod Registered
use Prim.Native.String.{String}
use peer_mesh.Prelude.{
  ℕ, Bool, true, false, Option, none, some, List, [], ◌∷◌, ◌++◌, if◌then◌else◌, Outcome, returns,
  fails, panics,
}
use peer_mesh.Net.{Ip}
use peer_mesh.Discovery.Message.{Message}
use peer_mesh.Discovery.Client.{
  Client, Error, already_connected, invalid_url, dial_failed, Reply, disconnect, handle_message,
}

-- How url.Parse and the dial end.
pub data Dial : Type 0 where
  unparsed refused : Dial
  dialed : ℕ → Dial

-- Connect returns an error and leaves the client as it is, or registers: SendMessage then waits for the
-- mutex that Connect holds, so what stands behind it is not reached.
pub data Connecting : Type 0 where
  gives_up : Error → Connecting
  registers : Client → Connecting

abbrev pub connect_by : Client → Dial → Connecting
connect_by c unparsed = gives_up invalid_url
connect_by c refused = gives_up dial_failed
connect_by c (dialed n) = registers (record c { conn = some n; is_connected = true })

unfoldable pub connect : Client → Dial → Connecting
connect c dial = if c.is_connected then gives_up already_connected else connect_by c dial

-- A round of reconnectToServer: a Disconnect may come while it sleeps, of which it is told whether the
-- connection closes.
pub record Try : Type 0 where
  pub disconnects : Option Bool
  pub dial : Dial

-- A loop has returned, has seen all its events so far, waits for the mutex, or has panicked.
pub data Ending : Type 0 where
  returned reads waits panicked : Ending

unfoldable pub after_disconnect : Client → Option Bool → Client
after_disconnect c none = c
after_disconnect c (some closes) = (disconnect c closes).1

abbrev pub after_connect : Connecting → Client × Ending → Client × Ending
after_connect (gives_up e) rest = rest
after_connect (registers c) rest = (c, waits)

-- The client after the rounds, and how the loop of reconnectToServer then stands; `returned` is by the stop
-- channel alone, as no Connect returns nil.
unfoldable pub reconnect_to_server : Client → List Try → Client × Ending
unfolding after_disconnect
reconnect_to_server c [] = (c, reads)
reconnect_to_server c (t ∷ ts) =
    let rest = reconnect_to_server (after_disconnect c t.disconnects) ts in
    if c.stop_closed
    then (c, returned)
    else after_connect (connect (after_disconnect c t.disconnects) t.dial) rest

-- What the loop of handleMessages meets: a read that fails, with the rounds of reconnectToServer that
-- follow it, bytes that are no message, a message, or a Disconnect.
pub data Event : Type 0 where
  unread : List Try → Event
  undecoded : Event
  got : Message → ℕ → Bool → Event
  disconnects : Bool → Event

-- The client, what it has written, and how the loop stands.
pub record Session : Type 0 where
  pub client : Client
  pub sent : List Message
  pub ending : Ending

abbrev pub with_sent : List Message → Session → Session
with_sent msgs s = record s { sent = msgs ++ s.sent }

-- The loop goes on after a reconnection only if that has returned.
abbrev pub goes_on : Client × Ending → Session → Session
goes_on (c, returned) rest = rest
goes_on (c, ending) rest = record { client = c; sent = []; ending = ending }

-- The client after a message; one that fails leaves it as it is.
abbrev pub client_after : Client → Outcome Error Reply → Client
client_after c (returns r) = r.client
client_after c r = c

-- What follows a message: an error is logged.
abbrev pub after_message : Client → Outcome Error Reply → Session → Session
after_message c (returns r) rest = with_sent r.sent rest
after_message c (fails e) rest = rest
after_message c panics rest = record { client = c; sent = []; ending = panicked }

module _ (parse_ip : String → Option Ip) where
  -- The loop returns where it sees that the stop channel is closed.
  unfoldable pub handle_messages : Client → List Event → Session
  handle_messages c [] = record { client = c; sent = []; ending = reads }
  handle_messages c (unread tries ∷ events) =
      let lost = reconnect_to_server c tries in
      let reconnected = handle_messages lost.0 events in
      let again = handle_messages c events in
      if c.stop_closed
      then record { client = c; sent = []; ending = returned }
      else if c.reconnect
      then goes_on lost reconnected
      else again
  handle_messages c (undecoded ∷ events) =
      let again = handle_messages c events in
      if c.stop_closed then record { client = c; sent = []; ending = returned } else again
  handle_messages c (got msg now writable ∷ events) =
      let reply = handle_message parse_ip c msg now writable in
      let rest = handle_messages (client_after c reply) events in
      if c.stop_closed
      then record { client = c; sent = []; ending = returned }
      else after_message c reply rest
  handle_messages c (disconnects closes ∷ events) =
      let rest = handle_messages (disconnect c closes).1 events in
      if c.stop_closed then record { client = c; sent = []; ending = returned } else rest
