-- ===== src/Peer/Traversal/PublicAddress.antt =====
-- Which STUN server's answer becomes the public address.
use Prim.Native.String.{String}
use peer_mesh.Prelude.{
  ℕ, suc, ◌+◌, length, arith, ◌≡◌, ◌≢◌, refl, ap, List, [], ◌∷◌, ◌++◌, ◌⊎◌, inl, inr, take, Outcome,
  returns, fails, panics,
}
use peer_mesh.Peer.Stun.{UdpAddr, parse_stun_response}
use peer_mesh.Peer.Stun
use peer_mesh.Peer.Stun.Response.{parse_stun_response-safe}
use peer_mesh.Peer.Traversal.{
  NatTraversal, Answer, unresolved, unsent, silent, packet, Error, unresolved_server,
  request_not_sent, no_response, bad_response, no_public_address, response_error, query_stun_server,
  ask_servers, get_public_address,
}

abbrev pub Fails : Outcome Error UdpAddr → Type 0
Fails r = (e : Error) × (r ≡ fails e)

-- The queries of the servers from the i-th on fail.
abbrev pub AllFail : (ℕ → String → Answer) → ℕ → List String → Type 0
AllFail answer i [] = Unit
AllFail answer i (s ∷ ss) = Fails (query_stun_server (answer i s)) × AllFail answer (i + 1) ss

response_error_cases :
    (r : Outcome Stun.Error UdpAddr)
    → r ≢ panics
    → ((addr : UdpAddr) × (response_error r ≡ returns addr)) ⊎ Fails (response_error r)
response_error_cases (returns addr) h = inl (addr, refl)
response_error_cases (fails e) h = inr (bad_response e, refl)
response_error_cases panics h = absurd (h refl)

query_cases :
    (a : Answer)
    → ((addr : UdpAddr) × (query_stun_server a ≡ returns addr)) ⊎ Fails (query_stun_server a)
unfolding query_stun_server
query_cases unresolved = inr (unresolved_server, refl)
query_cases unsent = inr (request_not_sent, refl)
query_cases silent = inr (no_response, refl)
query_cases (packet bytes) =
    response_error_cases (parse_stun_response (take 1024 bytes))
      (parse_stun_response-safe (take 1024 bytes))

-- A server whose answer is taken, behind ones that fail.
abbrev pub Found : (ℕ → String → Answer) → ℕ → List String → Outcome Error UdpAddr → Type 0
Found answer i servers r =
    (before : List String) × (server : String) × (after : List String) × (addr : UdpAddr) × (servers
      ≡ before ++ server ∷ after)
    × AllFail answer i before
    × (query_stun_server (answer (i + length before) server) ≡ returns addr)
    × (r ≡ returns addr)

ask_servers_cases :
    (answer : ℕ → String → Answer) (i : ℕ) (servers : List String)
    → Found answer i servers (ask_servers answer i servers)
      ⊎ (AllFail answer i servers × (ask_servers answer i servers ≡ fails no_public_address))
unfolding ask_servers
ask_servers_cases answer i [] = inr (tt, refl)
ask_servers_cases answer i (server ∷ servers) = elim (query_cases (answer i server)) [
  | inl (addr, e) ↦
      let first : i + 0 ≡ i = omega arith in
      inl ([], server, servers, addr, refl, tt, rw first e, rw e refl)
  | inr (err, e) ↦ elim (ask_servers_cases answer (i + 1) servers) [
    | inl (before, found, after, addr, split, failing, at, r) ↦
        let later : i + suc (length before) ≡ i + 1 + length before = omega arith in
        inl (
          server ∷ before,
          found,
          after,
          addr,
          ap (λ ss. server ∷ ss) split,
          ((err, e), failing),
          rw later at,
          rw e r,
        )
    | inr (failing, r) ↦ inr (((err, e), failing), rw e r)
  ]
]

-- However the servers answer, GetPublicAddress returns what the first server gives whose query succeeds,
-- the ones before it having failed, or fails if all of them fail; it does not panic.
pub get_public_address-first :
    (t : NatTraversal) (answer : ℕ → String → Answer)
    → Found answer 0 t.stun_servers (get_public_address t answer)
      ⊎ (AllFail answer 0 t.stun_servers × (get_public_address t answer ≡ fails no_public_address))
unfolding get_public_address
get_public_address-first t answer = ask_servers_cases answer 0 t.stun_servers
