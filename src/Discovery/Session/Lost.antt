-- ===== src/Discovery/Session/Lost.antt =====
-- What a client does once its connection is lost.
use Prim.Native.String.{String}
use peer_mesh.Prelude.{
  ℕ, ◌≡◌, refl, ap, Bool, true, false, Option, none, some, List, [], ◌∷◌, ◌++◌, ◌⊎◌, inl, inr,
  arith, string_eq, if◌then◌else◌, if_cases, Outcome, returns, fails, panics,
}
use peer_mesh.Prelude.Outcomes.{◌>>=◌}
use peer_mesh.Prelude.Assoc.{Assoc, lookup}
use peer_mesh.Net.{Ip}
use peer_mesh.Discovery.Message.{Message, Peer}
use peer_mesh.Discovery.Client.{
  Client, Handler, handles_peer_list, handles_peer_joined, handles_peer_left, handles_ping, custom,
  Error, Reply, disconnect, mark_left, run_handler, handle_peer_list, handle_peer_joined,
  handle_peer_left, handle_ping, handle_message,
}
use peer_mesh.Discovery.Session.{
  Dial, unparsed, refused, dialed, Connecting, connect_by, after_connect, connect, Try, Ending,
  returned, reads, waits, panicked, after_disconnect, reconnect_to_server, Event, unread, undecoded,
  got, disconnects, Session, with_sent, goes_on, client_after, after_message, handle_messages,
}

-- A client whose loop has been told to stop, or that takes itself for connected; it reconnects.
pub record IsLive (c : Client) : Type 0 where
  pub on : (c.stop_closed ≡ true) ⊎ (c.is_connected ≡ true)
  pub again : c.reconnect ≡ true

-- A message's handler changes the peers only.
abbrev KeepsLive : Client → Outcome Error Reply → Type 0
KeepsLive c (returns r) = IsLive c → IsLive r.client
KeepsLive c r = Unit

bind-KeepsLive :
    {A : Type 0} (c : Client) (m : Outcome Error A) (next : A → Outcome Error Reply)
    → ((a : A) → KeepsLive c (next a))
    → KeepsLive c (m >>= next)
bind-KeepsLive c panics next h = tt
bind-KeepsLive c (fails e) next h = tt
bind-KeepsLive c (returns a) next h = h a

mark_left-IsLive :
    (c : Client) (id : String) (found : Option Peer) (now : ℕ)
    → IsLive c
    → IsLive (mark_left found c id now)
unfolding mark_left
mark_left-IsLive c id none now l = l
mark_left-IsLive c id (some p) now l = record { on = l.on; again = l.again }

peers-KeepsLive : (c : Client) (m : Assoc String Peer) → IsLive c → IsLive (record c { peers = m })
peers-KeepsLive c m l = record { on = l.on; again = l.again }

custom-KeepsLive :
    (c : Client) (failed : Option Error)
    → KeepsLive c
        (elim failed [ none ↦ returns (record { client = c; sent = [] }) | some e ↦ fails e ])
custom-KeepsLive c none = λ l. l
custom-KeepsLive c (some e) = tt

module _ (parse_ip : String → Option Ip) where
  run_handler-KeepsLive :
      (h : Option Handler) (c : Client) (msg : Message) (now : ℕ) (writable : Bool)
      → KeepsLive c (run_handler parse_ip h c msg now writable)
  unfolding run_handler handle_peer_list handle_peer_joined handle_peer_left handle_ping
  run_handler-KeepsLive none c msg now writable = tt
  run_handler-KeepsLive (some handles_peer_list) c msg now writable =
      search (bind-KeepsLive, peers-KeepsLive)
  run_handler-KeepsLive (some handles_peer_joined) c msg now writable =
      search (bind-KeepsLive, peers-KeepsLive)
  run_handler-KeepsLive (some handles_peer_left) c msg now writable =
      search (bind-KeepsLive, mark_left-IsLive)
  run_handler-KeepsLive (some handles_ping) c msg now writable = search (bind-KeepsLive)
  run_handler-KeepsLive (some (custom f)) c msg now writable = custom-KeepsLive c (f msg)

  client_after-IsLive :
      (c : Client) (r : Outcome Error Reply) → KeepsLive c r → IsLive c → IsLive (client_after c r)
  client_after-IsLive c (returns r) k l = k l
  client_after-IsLive c (fails e) k l = l
  client_after-IsLive c panics k l = l

  handle_message-IsLive :
      (c : Client) (msg : Message) (now : ℕ) (writable : Bool)
      → IsLive c
      → IsLive (client_after c (handle_message parse_ip c msg now writable))
  unfolding handle_message
  handle_message-IsLive c msg now writable l =
      client_after-IsLive c _
        (run_handler-KeepsLive (lookup msg.type c.handlers) c msg now writable) l

disconnect-IsLive : (c : Client) (closes : Bool) → IsLive c → IsLive (disconnect c closes).1
unfolding disconnect
disconnect-IsLive c closes l = record { on = ground (arith, l.on); again = ground (arith, l.again) }

after_disconnect-IsLive : (c : Client) (d : Option Bool) → IsLive c → IsLive (after_disconnect c d)
unfolding after_disconnect
after_disconnect-IsLive c none l = l
after_disconnect-IsLive c (some closes) l = disconnect-IsLive c closes l

-- Tries that no Disconnect comes between.
abbrev pub undisturbed : List Dial → List Try
undisturbed [] = []
undisturbed (d ∷ ds) = record { disconnects = none; dial = d } ∷ undisturbed ds

dial-IsLive :
    (c : Client) (d : Dial) (rest : Client × Ending)
    → IsLive c
    → IsLive rest.0
    → IsLive (after_connect (connect_by c d) rest).0
dial-IsLive c unparsed rest l k = k
dial-IsLive c refused rest l k = k
dial-IsLive c (dialed n) rest l k = record { on = inr refl; again = l.again }

connect-IsLive :
    (c : Client) (d : Dial) (rest : Client × Ending)
    → IsLive c
    → IsLive rest.0
    → IsLive (after_connect (connect c d) rest).0
unfolding connect
connect-IsLive c d rest l k =
    if_cases (λ (r : Connecting). IsLive (after_connect r rest).0) c.is_connected (λ _. k)
      (λ _. dial-IsLive c d rest l k)

reconnect-IsLive : (c : Client) (ts : List Try) → IsLive c → IsLive (reconnect_to_server c ts).0
unfolding reconnect_to_server
reconnect-IsLive c [] l = l
reconnect-IsLive c (t ∷ ts) l =
    if_cases (λ (r : Client × Ending). IsLive r.0) c.stop_closed (λ _. l)
      (λ _.
        connect-IsLive (after_disconnect c t.disconnects) t.dial _ d
          (reconnect-IsLive (after_disconnect c t.disconnects) ts d))
  where
    d : IsLive (after_disconnect c t.disconnects)
    d = after_disconnect-IsLive c t.disconnects l

reconnect-undisturbed :
    (c : Client) (ds : List Dial)
    → c.stop_closed ≡ false
    → c.is_connected ≡ true
    → reconnect_to_server c (undisturbed ds) ≡ (c, reads)
unfolding reconnect_to_server connect after_disconnect
reconnect-undisturbed c [] still on = refl
reconnect-undisturbed c (d ∷ ds) still on = simp (still, on) (reconnect-undisturbed c ds still on)

-- What the loop has left: its client and what it has written.
abbrev pub kept : Session → Client × List Message
kept s = (s.client, s.sent)

kept-with_sent :
    (msgs : List Message) (s t : Session)
    → kept s ≡ kept t
    → kept (with_sent msgs s) ≡ kept (with_sent msgs t)
kept-with_sent msgs s t e = ap (λ (k : Client × List Message). (k.0, msgs ++ k.1)) e

kept-after_message :
    (c : Client) (r : Outcome Error Reply) (s t : Session)
    → kept s ≡ kept t
    → kept (after_message c r s) ≡ kept (after_message c r t)
kept-after_message c (returns r) s t e = kept-with_sent r.sent s t e
kept-after_message c (fails x) s t e = e
kept-after_message c panics s t e = refl

kept-goes_on :
    (r : Client × Ending) (s t : Session)
    → kept s ≡ kept t
    → kept (goes_on r s) ≡ kept (goes_on r t)
kept-goes_on (c, returned) s t e = e
kept-goes_on (c, reads) s t e = refl
kept-goes_on (c, waits) s t e = refl
kept-goes_on (c, panicked) s t e = refl

-- The two loops, one of which goes on.
kept-stop :
    (b : Bool) (c : Client) (s t : Session)
    → (b ≡ false → kept s ≡ kept t)
    → kept (if b then record { client = c; sent = []; ending = returned } else s)
      ≡ kept (if b then record { client = c; sent = []; ending = returned } else t)
kept-stop true c s t h = refl
kept-stop false c s t h = h refl

kept-again :
    (b : Bool) (s t u v : Session)
    → b ≡ true
    → kept s ≡ kept t
    → kept (if b then s else u) ≡ kept (if b then t else v)
kept-again true s t u v on e = e
kept-again false s t u v on e = cc

connected : (c : Client) → IsLive c → c.stop_closed ≡ false → c.is_connected ≡ true
connected c l still = elim l.on [ inl e ↦ cc (e, still) | inr e ↦ e ]

module _ (parse_ip : String → Option Ip) where
  -- Of a client that reconnects, and takes itself for connected or has been told to stop: whatever it
  -- meets before, a failed read that no Disconnect follows is its last event. It stays as it is,
  -- reads no other message and writes none, however often it dials and whatever a dial would give.
  pub handle_messages-lost :
      (c : Client) (dials : List Dial) (before after : List Event)
      → IsLive c
      → kept (handle_messages parse_ip c (before ++ unread (undisturbed dials) ∷ after))
        ≡ kept (handle_messages parse_ip c before)
  unfolding handle_messages
  handle_messages-lost c dials [] after l =
      if_cases (λ s. kept s ≡ (c, [])) c.stop_closed (λ _. refl)
        (λ still.
          if_cases (λ s. kept s ≡ (c, [])) c.reconnect
            (λ _. rw (reconnect-undisturbed c dials still (connected c l still)) refl)
            (λ off. absurd cc (off, l.again)))
  handle_messages-lost c dials (unread tries ∷ before) after l = kept-stop c.stop_closed c _ _ (λ _.
      kept-again c.reconnect _ _ _ _ l.again (
        kept-goes_on (reconnect_to_server c tries)
          (handle_messages parse_ip (reconnect_to_server c tries).0
            (before ++ unread (undisturbed dials) ∷ after))
          (handle_messages parse_ip (reconnect_to_server c tries).0 before)
          (handle_messages-lost (reconnect_to_server c tries).0 dials before after
            (reconnect-IsLive c tries l))))
  handle_messages-lost c dials (undecoded ∷ before) after l =
      kept-stop c.stop_closed c _ _ (λ _. handle_messages-lost c dials before after l)
  handle_messages-lost c dials (got msg now writable ∷ before) after l =
      kept-stop c.stop_closed c _ _ (λ _.
        kept-after_message c (handle_message parse_ip c msg now writable)
          (handle_messages parse_ip (client_after c (handle_message parse_ip c msg now writable))
            (before ++ unread (undisturbed dials) ∷ after))
          (handle_messages parse_ip (client_after c (handle_message parse_ip c msg now writable))
            before)
          (handle_messages-lost (client_after c (handle_message parse_ip c msg now writable)) dials
            before after (handle_message-IsLive parse_ip c msg now writable l)))
  handle_messages-lost c dials (disconnects closes ∷ before) after l =
      kept-stop c.stop_closed c _ _ (λ _.
        handle_messages-lost (disconnect c closes).1 dials before after
          (disconnect-IsLive c closes l))
