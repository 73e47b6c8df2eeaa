-- ===== src/Peer/Traversal/Punch.antt =====
-- When hole punching makes a peer reachable.
use Prim.Native.String.{String}
use peer_mesh.Prelude.{
  ℕ, ◌≡◌, ◌≢◌, refl, ◌∙◌, Bool, true, false, ◌&&◌, Option, none, some, List, [], ◌∷◌, arith,
  Bool-cases, ◌==◌, string_eq, if◌then◌else◌, inl, inr,
}
use peer_mesh.Prelude.Assoc.{lookup, lookup-insert, beq_self}
use peer_mesh.Peer.Stun.{UdpAddr}
use peer_mesh.Peer.Traversal.{
  NatTraversal, PeerInfo, Event, timed_out, read_failed, received, start_hole_punch, same_address,
  is_punch, mark_found, mark_reachable, listen, is_peer_reachable, get_peer_info,
}

-- Whether a punch from the address comes before the timer fires.
abbrev pub punched : UdpAddr → List Event → Bool
punched addr [] = false
punched addr (timed_out ∷ events) = false
punched addr (read_failed ∷ events) = punched addr events
punched addr (received from bytes now ∷ events) =
    if same_address from addr && is_punch bytes then true else punched addr events

mark_reachable_lem :
    (t : NatTraversal) (id : String) (now : ℕ) (peer : PeerInfo)
    → lookup id t.peers ≡ some peer
    → is_peer_reachable (mark_reachable t id now) id ≡ true
unfolding is_peer_reachable mark_reachable lookup
mark_reachable_lem t id now peer h =
    rw (mark_reachable, h, mark_found) (rw (lookup-insert, beq_self id) refl)

-- The listener of a registered peer.
listen-reachable :
    (t : NatTraversal) (id : String) (addr : UdpAddr) (events : List Event) (peer : PeerInfo)
    → lookup id t.peers ≡ some peer
    → peer.is_reachable ≡ false
    → is_peer_reachable (listen t id addr events) id ≡ punched addr events
unfolding listen
listen-reachable t id addr [] peer h off = unfold is_peer_reachable in rw (h, off) refl
listen-reachable t id addr (timed_out ∷ events) peer h off =
    unfold is_peer_reachable in rw (h, off) refl
listen-reachable t id addr (read_failed ∷ events) peer h off =
    listen-reachable t id addr events peer h off
listen-reachable t id addr (received from bytes now ∷ events) peer h off =
    ground (arith, listen-reachable t id addr events peer h off, mark_reachable_lem t id now peer h)

mark_found-other :
    (t : NatTraversal) (id j : String) (found : Option PeerInfo) (now : ℕ)
    → (id == j) ≡ false
    → lookup j (mark_found t id found now).peers ≡ lookup j t.peers
unfolding mark_found
mark_found-other t id j none now ne = refl
mark_found-other t id j (some peer) now ne = rw (lookup-insert, ne) refl

listen-other :
    (t : NatTraversal) (id j : String) (addr : UdpAddr) (events : List Event)
    → (id == j) ≡ false
    → lookup j (listen t id addr events).peers ≡ lookup j t.peers
unfolding listen mark_reachable
listen-other t id j addr [] ne = refl
listen-other t id j addr (timed_out ∷ events) ne = refl
listen-other t id j addr (read_failed ∷ events) ne = listen-other t id j addr events ne
listen-other t id j addr (received from bytes now ∷ events) ne =
    ground (
      arith,
      listen-other t id j addr events ne,
      mark_found-other t id j (lookup id t.peers) now ne,
    )

-- After StartHolePunch and any rounds of its listener, the peer is reachable exactly if a packet that
-- begins with PUNCH: and goes on has come from the peer's address before the timer fired.
pub start_hole_punch-reachable :
    (t : NatTraversal) (id : String) (addr : UdpAddr) (now : ℕ) (events : List Event)
    → is_peer_reachable (listen (start_hole_punch t id addr now) id addr events) id
      ≡ punched addr events
unfolding start_hole_punch
start_hole_punch-reachable t id addr now events =
    listen-reachable (start_hole_punch t id addr now) id addr events
      (record { id = id; public_addr = addr; last_seen = now; is_reachable = false })
      (rw (lookup-insert, beq_self id) refl) refl

-- Hole punching to one peer leaves what is known of the others alone.
pub start_hole_punch-others :
    (t : NatTraversal) (id j : String) (addr : UdpAddr) (now : ℕ) (events : List Event)
    → id ≢ j
    → get_peer_info (listen (start_hole_punch t id addr now) id addr events) j ≡ get_peer_info t j
unfolding get_peer_info start_hole_punch
start_hole_punch-others t id j addr now events ne =
    listen-other (start_hole_punch t id addr now) id j addr events apart
    ∙ rw (lookup-insert, apart) refl
  where
    apart : (id == j) ≡ false
    apart = elim (Bool-cases (id == j)) [
      | inl e ↦ absurd (ne ((string_eq.beq_iff id j).0 e))
      | inr e ↦ e
    ]
