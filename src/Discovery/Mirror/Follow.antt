-- ===== src/Discovery/Mirror/Follow.antt =====
-- What a client of src/internal/discovery/client.go makes of a broadcast, of which it reads a copy for
-- each entry of its connection.
use Prim.Native.String.{String}
use peer_mesh.Prelude.{
  ℕ, ◌≡◌, refl, ap, ◌∙◌, Bool, true, false, Option, none, some, List, [], ◌∷◌, ◌++◌, length, arith,
  Bool-cases, inl, inr, ◌==◌, string_eq, nat_eq, if◌then◌else◌,
}
use peer_mesh.Prelude.Assoc.{Assoc, lookup, insert, lookup-insert, beq_self}
use peer_mesh.Net.{Ip}
use peer_mesh.Discovery.Message.{Peer}
use peer_mesh.Discovery.Server.{
  PeerConnection, Server, Sent, Write, peer_joined, peer_left, peer_list, to_all,
}
use peer_mesh.Discovery.Wire.{sent_message}
use peer_mesh.Discovery.Client.{Client, mark_left}
use peer_mesh.Discovery.Client.Reading.{
  received, insert_all, AllLong, Listens, handle_message-list, handle_message-joined,
  handle_message-left,
}
use peer_mesh.Discovery.Session.{client_after}
use peer_mesh.Discovery.Mirror.{Facts, facts, client_view, server_view, mark_left-view}
use peer_mesh.Discovery.Mirror.World.{has_conn, deliver, follow}

unfoldable pub among : String → List String → Bool
among j [] = false
among j (id ∷ ids) = if id == j then true else among j ids

-- The client goes on listening, and its view is the server's but for the IDs of the list.
pub record Follows (ids : List String) (s : Server) (c : Client) : Type 0 where
  pub view : (j : String) → among j ids ≡ false → client_view c j ≡ server_view s j
  pub listens : Listens c

-- The handlers and the connection stay.
pub Listens-peers :
    {c : Client} → Listens c → (m : Assoc String Peer) → Listens (record c { peers = m })
Listens-peers l m = record {
  on_list = l.on_list;
  on_joined = l.on_joined;
  on_left = l.on_left;
  on_ping = l.on_ping;
  on_pong = l.on_pong;
  linked = l.linked;
}

mark_left-Listens :
    (c : Client) (id : String) (found : Option Peer) (now : ℕ)
    → Listens c
    → Listens (mark_left found c id now)
unfolding mark_left
mark_left-Listens c id none now l = l
mark_left-Listens c id (some p) now l = Listens-peers l _

pub Follows-weaken :
    {ids : List String} {s : Server} {c : Client} (id : String)
    → Follows ids s c
    → Follows (id ∷ ids) s c
unfolding among
Follows-weaken id f = record {
  view = λ j absent. f.view j (ground (arith, absent));
  listens = f.listens;
}

module _ (print_ip : Ip → String) (print_time : ℕ → String) (parse_ip : String → Option Ip)
    (print_parse : (ip : Ip) → length ip ≡ 16 → parse_ip (print_ip ip) ≡ some ip) where
  -- The message makes the client's view of the ID what is given, and goes on listening.
  pub record Tells (sent : Sent) (id : String) (fact : Option Facts) : Type 0 where
    pub tells :
        (c : Client) (now : ℕ) (j : String)
        → Listens c
        → client_view (deliver print_ip print_time parse_ip c sent now) j
          ≡ (if id == j then fact else client_view c j)
    pub goes_on :
        (c : Client) (now : ℕ)
        → Listens c
        → Listens (deliver print_ip print_time parse_ip c sent now)

  pub deliver-left :
      (c : Client) (id : String) (now : ℕ)
      → Listens c
      → deliver print_ip print_time parse_ip c (peer_left id) now
        ≡ mark_left (lookup id c.peers) c id now
  unfolding sent_message
  deliver-left c id now l =
      ap (client_after c)
        (handle_message-left print_ip print_time parse_ip print_parse c l now true id)

  pub deliver-joined :
      (c : Client) (p : Peer) (now : ℕ)
      → Listens c
      → length p.ip ≡ 16
      → deliver print_ip print_time parse_ip c (peer_joined p) now
        ≡ record c { peers = insert p.id (received p now) c.peers }
  unfolding sent_message
  deliver-joined c p now l long =
      ap (client_after c)
        (handle_message-joined print_ip print_time parse_ip print_parse c l now true p long)

  pub deliver-list :
      (c : Client) (p : Peer) (ps : List Peer) (now : ℕ)
      → Listens c
      → AllLong (p ∷ ps)
      → deliver print_ip print_time parse_ip c (peer_list (p ∷ ps)) now
        ≡ record c { peers = insert_all (p ∷ ps) now [] }
  unfolding sent_message
  deliver-list c p ps now l long =
      ap (client_after c)
        (handle_message-list print_ip print_time parse_ip print_parse c l now true p ps long)

  pub left-Tells : (id : String) → Tells (peer_left id) id none
  left-Tells id = record {
    tells = λ c now j l.
        rw (deliver-left c id now l) (mark_left-view c id j (lookup id c.peers) now refl);
    goes_on =
        λ c now l. rw (deliver-left c id now l) (mark_left-Listens c id (lookup id c.peers) now l);
  }

  pub joined-Tells : (p : Peer) → length p.ip ≡ 16 → Tells (peer_joined p) p.id (some (facts p))
  joined-Tells p long = record {
    tells = λ c now j l.
        rw (deliver-joined c p now l long)
          (rw (lookup-insert p.id j (received p now) c.peers) (ground arith));
    goes_on = λ c now l. rw (deliver-joined c p now l long) (Listens-peers l _);
  }

  module _ {sent : Sent} {id : String} {fact : Option Facts} (t : Tells sent id fact) (s : Server)
      (e : server_view s id ≡ fact) (now : ℕ) where
    settle :
        (ids : List String) (c : Client)
        → Follows (id ∷ ids) s c
        → Follows ids s (deliver print_ip print_time parse_ip c sent now)
    unfolding among
    settle ids c f = record {
      view = λ j absent.
          t.tells c now j f.listens ∙ ground (arith, e, string_eq.beq_iff id j, f.view j, absent);
      listens = t.goes_on c now f.listens;
    }

    copies :
        (me : ℕ) (cs : List PeerConnection) (ids : List String) (c : Client)
        → Follows ids s c
        → Follows ids s (follow print_ip print_time parse_ip me c (to_all sent cs) now)
    copies me [] ids c f = f
    copies me (k ∷ ks) ids c f = elim (Bool-cases (k.conn == me)) [
      | inl mine ↦ rw mine (
          copies me ks ids (deliver print_ip print_time parse_ip c sent now)
            (settle ids c (Follows-weaken id f)))
      | inr other ↦ rw other (copies me ks ids c f)
    ]

    pub broadcast-Follows :
        (me : ℕ) (cs : List PeerConnection) (ids : List String) (c : Client)
        → has_conn me cs ≡ true
        → Follows (id ∷ ids) s c
        → Follows ids s (follow print_ip print_time parse_ip me c (to_all sent cs) now)
    broadcast-Follows me [] ids c on f = cc
    broadcast-Follows me (k ∷ ks) ids c on f = elim (Bool-cases (k.conn == me)) [
      | inl mine ↦
          rw mine
            (copies me ks ids (deliver print_ip print_time parse_ip c sent now) (settle ids c f))
      | inr other ↦ rw other (broadcast-Follows me ks ids c (ground (arith, on, other)) f)
    ]

  module _ {sent : Sent} {id : String} {fact : Option Facts} (t : Tells sent id fact)
      (now : ℕ) where
    tell_again :
        (me : ℕ) (cs : List PeerConnection) (c : Client)
        → Listens c
        → client_view c id ≡ fact
        → let d = follow print_ip print_time parse_ip me c (to_all sent cs) now in
          (client_view d id ≡ fact) × Listens d
    tell_again me [] c l e = (e, l)
    tell_again me (k ∷ ks) c l e = elim (Bool-cases (k.conn == me)) [
      | inl mine ↦ rw mine (
          tell_again me ks (deliver print_ip print_time parse_ip c sent now) (t.goes_on c now l)
            (t.tells c now id l ∙ ground (arith, e)))
      | inr other ↦ rw other (tell_again me ks c l e)
    ]

    pub broadcast-told :
        (me : ℕ) (cs : List PeerConnection) (c : Client)
        → Listens c
        → has_conn me cs ≡ true
        → let d = follow print_ip print_time parse_ip me c (to_all sent cs) now in
          (client_view d id ≡ fact) × Listens d
    broadcast-told me [] c l on = cc
    broadcast-told me (k ∷ ks) c l on = elim (Bool-cases (k.conn == me)) [
      | inl mine ↦ rw mine (
          tell_again me ks (deliver print_ip print_time parse_ip c sent now) (t.goes_on c now l)
            (t.tells c now id l ∙ rw (beq_self id) refl))
      | inr other ↦ rw other (broadcast-told me ks c l (ground (arith, on, other)))
    ]

  pub follow-append :
      (me : ℕ) (c : Client) (ws vs : List Write) (now : ℕ)
      → follow print_ip print_time parse_ip me c (ws ++ vs) now
        ≡ follow print_ip print_time parse_ip me
            (follow print_ip print_time parse_ip me c ws now)
            vs
            now
  follow-append me c [] vs now = refl
  follow-append me c (w ∷ ws) vs now = elim (Bool-cases (w.conn == me)) [
    | inl mine ↦
        rw mine (follow-append me (deliver print_ip print_time parse_ip c w.sent now) ws vs now)
    | inr other ↦ rw other (follow-append me c ws vs now)
  ]
