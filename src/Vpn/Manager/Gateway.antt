-- ===== src/Vpn/Manager/Gateway.antt =====
-- The gateway that NewManager chooses.
use peer_mesh.Prelude.{
  ℕ, zero, suc, ◌+◌, ◌%◌, ◌≤◌, ◌<◌, ◌≡◌, ◌≢◌, refl, ap, sym, ◌∙◌, true, false, inl, inr, [], ◌∷◌,
  length, get_or, set, get_or-set_self, get_or-set_ne, arith, Bool-cases, if_cases, ◌==◌, nat_eq,
  list_eq, list_beq, list_beq_iff, if◌then◌else◌,
}
use peer_mesh.Net.{Ip, Subnet, equal}
use peer_mesh.Vpn.Allocator.{
  IpAllocator, increment_from, increment_ip, gateway_ip, is_network_or_broadcast,
}
use peer_mesh.Vpn.Allocator.Increment.{length-increment_from, length-increment_ip}
use peer_mesh.Vpn.Manager.{choose_gateway}

-- The bytes behind those that an addition has come to.
get_or-increment_from :
    (n j : ℕ) (ip : Ip) → n ≤ j → get_or (increment_from n ip) j 0 ≡ get_or ip j 0
unfolding increment_from
get_or-increment_from zero j ip h = refl
get_or-increment_from (suc i) j ip h =
    let written = get_or-set_ne ip i j ((get_or ip i 0 + 1) % 256) 0 (λ e. omega (arith, e)) in
    if_cases (λ (r : Ip). get_or r j 0 ≡ get_or ip j 0)
      (get_or (set ip i ((get_or ip i 0 + 1) % 256)) i 0 == 0)
      (λ _.
        get_or-increment_from i j (set ip i ((get_or ip i 0 + 1) % 256)) (omega arith) ∙ written)
      (λ _. written)

last-increment_from :
    (i : ℕ) (ip : Ip)
    → i < length ip
    → get_or (increment_from (suc i) ip) i 0 ≡ (get_or ip i 0 + 1) % 256
unfolding increment_from
last-increment_from i ip h =
    let written = get_or-set_self ip i ((get_or ip i 0 + 1) % 256) 0 h in
    if_cases (λ (r : Ip). get_or r i 0 ≡ (get_or ip i 0 + 1) % 256)
      (get_or (set ip i ((get_or ip i 0 + 1) % 256)) i 0 == 0)
      (λ _.
        get_or-increment_from i i (set ip i ((get_or ip i 0 + 1) % 256)) (omega arith) ∙ written)
      (λ _. written)

increment_ip-moves : (x : ℕ) (ip : Ip) → increment_ip (x ∷ ip) ≢ x ∷ ip
unfolding increment_ip
increment_ip-moves x ip e = omega (
  arith,
  last-increment_from (length ip) (x ∷ ip) (omega arith),
  ap (λ (r : Ip). get_or r (length ip) 0) e,
)

equal-increment_ip : (x : ℕ) (ip : Ip) → equal (increment_ip (x ∷ ip)) (x ∷ ip) ≡ false
unfolding equal
equal-increment_ip x ip = ground (
  arith,
  length-increment_ip (x ∷ ip),
  list_beq_iff (increment_ip (x ∷ ip)) (x ∷ ip),
  increment_ip-moves x ip,
)

length-gateway_ip : (a : IpAllocator) → length (gateway_ip a) ≡ length a.subnet.ip
unfolding gateway_ip
length-gateway_ip a = length-increment_from (length a.subnet.ip) a.subnet.ip

equal_empty : (ip : Ip) → equal ip [] ≡ true → length ip ≡ 0
unfolding equal
equal_empty ip h = ground (arith, h)

no_bytes : (ip : Ip) → length ip ≡ 0 → ip ≡ []
no_bytes [] h = refl
no_bytes (x ∷ ip) h = absurd (omega (arith, h))

reserved_empty : (s : Subnet) → length s.ip ≡ 0 → is_network_or_broadcast s [] ≡ true
unfolding is_network_or_broadcast equal
reserved_empty s h = rw (no_bytes s.ip h) (unfold list_beq in refl)

pub choose_gateway-other :
    (a : IpAllocator) (ip : Ip)
    → is_network_or_broadcast a.subnet ip ≡ false
    → equal (choose_gateway a ip) ip ≡ false
unfolding choose_gateway
choose_gateway-other a [] host = elim (Bool-cases (equal (gateway_ip a) [])) [
  | inl e ↦ absurd (
      cc (host, reserved_empty a.subnet (sym (length-gateway_ip a) ∙ equal_empty (gateway_ip a) e)))
  | inr e ↦ rw e e
]
choose_gateway-other a (x ∷ ip) host = elim (Bool-cases (equal (gateway_ip a) (x ∷ ip))) [
  | inl e ↦ rw e (equal-increment_ip x ip)
  | inr e ↦ rw e e
]

-- The gateway by the subnet's first host and the local address.
abbrev pub gateway_of : Subnet → Ip → Ip
gateway_of s ip = if equal (increment_ip s.ip) ip then increment_ip ip else increment_ip s.ip

pub choose_gateway_lem : (a : IpAllocator) (ip : Ip) → choose_gateway a ip ≡ gateway_of a.subnet ip
unfolding choose_gateway gateway_ip increment_ip
choose_gateway_lem a ip = refl
