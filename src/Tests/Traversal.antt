-- ===== src/Tests/Traversal.antt =====
-- Hole punching in src/internal/peer/nat_traversal.go.
use Prim.Native.String.{String}
use peer_mesh.Prelude.{ℕ, zero, suc, refl, returns, ◌⊎◌, fails, ◌≡◌, true, [], ◌∷◌, ◌++◌, string_eq}
use peer_mesh.Peer.Stun.{UdpAddr}
use peer_mesh.Peer.Traversal.PublicAddress.{Found, AllFail, get_public_address-first}
use peer_mesh.Peer.Traversal.{
  Answer, silent, packet, no_public_address, get_public_address, NatTraversal, Event, read_failed,
  received, punch_prefix, start_hole_punch, listen, is_peer_reachable, traversal_runs,
}
use peer_mesh.Peer.Traversal.Punch.{start_hole_punch-reachable}

abbrev none_yet : NatTraversal
none_yet = record {
  local_addr = record { ip = 10 ∷ 0 ∷ 0 ∷ 4 ∷ []; port = 4000 };
  stun_servers = "a" ∷ "b" ∷ [];
  peers = [];
}

abbrev bob_addr : UdpAddr
bob_addr = record { ip = 192 ∷ 0 ∷ 2 ∷ 9 ∷ []; port = 4000 }

-- The same address in the 16-byte form that the socket reports.
abbrev bob_seen : UdpAddr
bob_seen = record {
  ip = 0 ∷ 0 ∷ 0 ∷ 0 ∷ 0 ∷ 0 ∷ 0 ∷ 0 ∷ 0 ∷ 0 ∷ 255 ∷ 255 ∷ 192 ∷ 0 ∷ 2 ∷ 9 ∷ [];
  port = 4000;
}

abbrev answer : Event
answer = received bob_seen (punch_prefix ++ 49 ∷ []) 8

start_hole_punch-reachable_example :
    is_peer_reachable
      (listen
        (start_hole_punch none_yet "bob" bob_addr 7)
        "bob"
        bob_addr
        (read_failed ∷ answer ∷ []))
      "bob"
    ≡ true
unfolding traversal_runs
start_hole_punch-reachable_example =
    start_hole_punch-reachable none_yet "bob" bob_addr 7 (read_failed ∷ answer ∷ [])

-- The first server is silent, and the second gives an address.
abbrev second_answers : ℕ → String → Answer
second_answers zero server = silent
second_answers (suc i) server = packet (
    1 ∷ 1 ∷ 0 ∷ 12 ∷ 33 ∷ 18 ∷ 164 ∷ 66 ∷ 0 ∷ 0 ∷ 0 ∷ 0 ∷ 0 ∷ 0 ∷ 0 ∷ 0 ∷ 0 ∷ 0 ∷ 0 ∷ 0 ∷ 0 ∷ 32 ∷ 0
    ∷ 8 ∷ 0 ∷ 1 ∷ 33 ∷ 18 ∷ 33 ∷ 33 ∷ 33 ∷ 33 ∷ [])

second_run :
    get_public_address none_yet second_answers
    ≡ returns (record { ip = 0 ∷ 0 ∷ 0 ∷ 0 ∷ []; port = 0 })
unfolding traversal_runs
second_run = refl

get_public_address-first_example :
    Found second_answers 0 ("a" ∷ "b" ∷ []) (get_public_address none_yet second_answers)
    ⊎ (AllFail second_answers 0 ("a" ∷ "b" ∷ [])
        × (get_public_address none_yet second_answers ≡ fails no_public_address))
get_public_address-first_example = get_public_address-first none_yet second_answers
