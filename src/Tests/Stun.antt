-- ===== src/Tests/Stun.antt =====
-- The STUN messages of src/internal/peer/nat_traversal.go.
use peer_mesh.Prelude.{
  ℕ, ◌≡◌, ◌≢◌, refl, List, [], ◌∷◌, ◌++◌, get_or, replicate, arith, returns, fails, panics,
}
use peer_mesh.Peer.Stun.{
  UdpAddr, create_stun_request, parse_stun_response, unexpected_type, address_not_found, stun_runs,
}
use peer_mesh.Peer.Stun.Response.{
  attribute, xor_mapped_address, parse_stun_response-safe, parse_stun_response-misreads,
}

abbrev header : List ℕ
header = 1 ∷ 1 ∷ 0 ∷ 12 ∷ 0x21 ∷ 0x12 ∷ 0xA4 ∷ 0x42 ∷ replicate 12 0

abbrev answer : List ℕ
answer = header ++ attribute 0x0020 (xor_mapped_address 192 0 2 1 32853)

-- The client 192.0.2.1:32853 learns another address.
answer_run :
    parse_stun_response answer ≡ returns (record { ip = 192 ∷ 51 ∷ 135 ∷ 98 ∷ []; port = 32853 })
unfolding stun_runs
answer_run = refl

-- A request is no answer, and an answer may lack the address.
request_run : parse_stun_response create_stun_request ≡ fails (unexpected_type 1)
unfolding stun_runs
request_run = refl

other_run :
    parse_stun_response (header ++ attribute 0x8022 (112 ∷ 109 ∷ 101 ∷ 115 ∷ []))
    ≡ fails address_not_found
unfolding stun_runs
other_run = refl

-- The loop `offset < len(data)-4` stops short of an attribute of no bytes, and one is safe to read.
parse_stun_response-safe_example :
    parse_stun_response (header ++ 0 ∷ 0x20 ∷ 0 ∷ 9 ∷ 0 ∷ []) ≢ panics
parse_stun_response-safe_example = parse_stun_response-safe (header ++ 0 ∷ 0x20 ∷ 0 ∷ 9 ∷ 0 ∷ [])

parse_stun_response-misreads_example :
    (addr : UdpAddr) × (parse_stun_response answer ≡ returns addr)
    × (addr.port ≡ 32853)
    × (get_or addr.ip 0 0 ≡ 192)
    × (get_or addr.ip 1 0 ≢ 0)
parse_stun_response-misreads_example =
    parse_stun_response-misreads header 192 0 2 1 32853 refl refl refl (omega arith) (omega arith)
      (omega arith)
