-- ===== src/Vpn/Manager/LocalIp.antt =====
-- The addresses of a new manager.
use Prim.Native.String.{String}
use peer_mesh.Prelude.{
  ◌≡◌, ap, list_beq_iff, refl, sym, subst, ◌∙◌, true, false, not, Option, [], length, arith,
  if_cases, Result, ok, ◌==◌, string_eq, list_eq, >>=-eq-ok, or_fail,
}
use peer_mesh.Net.Equality.{equal-text}
use peer_mesh.Vpn.Manager.Gateway.{gateway_of, choose_gateway_lem, choose_gateway-other}
use peer_mesh.Net.{Ip, Subnet, equal, text, subnet_contains}
use peer_mesh.Prelude.Assoc.{lookup, insert}
use peer_mesh.Vpn.Allocator
use peer_mesh.Vpn.Allocator.{
  IpAllocator, increment_from, new_ip_allocator, is_allocated, is_network_or_broadcast, allocate_ip,
  allocate_specific_ip,
}
use peer_mesh.Vpn.Allocator.Scan.{taken, is_free}
use peer_mesh.Vpn.Allocator.Lifecycle.{allocate_cases, is_allocated-insert, is_free_host}
use peer_mesh.Vpn.Interface.{new_interface}
use peer_mesh.Vpn.Manager.{
  Manager, ManagerConfig, Error, invalid_local_ip, claim, take_next, choose_local_ip,
  choose_gateway, new_manager, assemble, manager_on, register_default_handlers,
  register_packet_handler, invalid_subnet,
}

-- An allocator of subnet `s` that has handed out `ip` alone, which is no reserved address.
abbrev pub Holds : Subnet → Ip → IpAllocator → Type 0
Holds s ip a =
    (a.subnet ≡ s)
    × ((jp : Ip) → is_allocated a jp ≡ (text ip == text jp))
    × (is_network_or_broadcast s ip ≡ false)

-- An allocator that has handed out nothing.
abbrev pub IsUnused : IpAllocator → Type 0
IsUnused a = (jp : Ip) → is_allocated a jp ≡ false

marked :
    (a : IpAllocator) (ip cursor jp : Ip)
    → IsUnused a
    → is_allocated (record a { allocated = insert (text ip) true a.allocated; next_ip = cursor }) jp
      ≡ (text ip == text jp)
marked a ip cursor jp unused = is_allocated-insert a ip jp cursor ∙ ground (arith, unused jp)

Holds-taken :
    (a : IpAllocator) (ip : Ip) → IsUnused a → is_free a ip ≡ true → Holds a.subnet ip (taken a ip)
Holds-taken a ip unused free = (refl, λ jp. marked a ip _ jp unused, is_free_host a ip free)

take_next-Holds :
    (a b : IpAllocator) (ip : Ip)
    → IsUnused a
    → take_next (allocate_ip a) ≡ ok (ip, b)
    → Holds a.subnet ip b
take_next-Holds a b ip unused h =
    allocate_cases (λ r. take_next r ≡ ok (ip, b) → Holds a.subnet ip b) a
      (λ jp free e.
        let same : jp ≡ ip = ground arith in
        let state : taken a jp ≡ b = ground arith in
        rw (← state, ← same) (Holds-taken a jp unused free))
      (λ e. cc) h

claim-Holds :
    (a b : IpAllocator) (ip jp : Ip)
    → IsUnused a
    → claim ip (allocate_specific_ip a ip) ≡ ok (jp, b)
    → Holds a.subnet jp b
unfolding allocate_specific_ip
claim-Holds a b ip jp unused =
    if_cases P (not (subnet_contains a.subnet ip)) (λ _ e. cc)
      λ _.
        if_cases P (is_network_or_broadcast a.subnet ip) (λ _ e. cc)
          λ host.
            if_cases P (is_allocated a ip) (λ _ e. cc)
              λ _ e.
                let same : ip ≡ jp = ground arith in
                let state : record a { allocated = insert (text ip) true a.allocated } ≡ b =
                  ground arith in
                rw (← state, ← same) (refl, λ kp. marked a ip a.next_ip kp unused, host)
  where
    P : Result Allocator.Error Unit × IpAllocator → Type 0
    P r = claim ip r ≡ ok (jp, b) → Holds a.subnet jp b

pub record Starts (s : Subnet) (m : Manager) : Type 0 where
  pub subnet : m.subnet ≡ s
  pub local_ip : Holds s m.local_ip m.allocator
  pub gateway : m.gateway ≡ gateway_of s m.local_ip
  pub gateway_apart : equal m.gateway m.local_ip ≡ false
  pub gateway_open : is_allocated m.allocator m.gateway ≡ false
  pub stopped : m.is_running ≡ false
  pub shut : m.interface.is_open ≡ false

ok-injective : {a b : Manager} → ◌≡◌ {A = Result Error Manager} (ok a) (ok b) → a ≡ b
ok-injective e = cc

assemble-Starts :
    (config : ManagerConfig) (s : Subnet) (ip : Ip) (a : IpAllocator) (m : Manager)
    → assemble config s (ip, a) ≡ ok m
    → Holds s ip a
    → Starts s m
unfolding assemble new_interface register_default_handlers register_packet_handler
assemble-Starts config s ip a m e h = subst (Starts s) (ok-injective e) (record {
  subnet = refl;
  local_ip = h;
  gateway = choose_gateway_lem a ip ∙ ap (λ t. gateway_of t ip) h.0;
  gateway_apart = apart;
  gateway_open =
      h.1 (choose_gateway a ip)
      ∙ ground (
        arith,
        apart,
        equal-text (choose_gateway a ip) ip,
        list_beq_iff (text ip) (text (choose_gateway a ip)),
        list_beq_iff (text (choose_gateway a ip)) (text ip),
      );
  stopped = refl;
  shut = refl;
})
  where
    apart : equal (choose_gateway a ip) ip ≡ false
    apart = choose_gateway-other a ip (ap (λ t. is_network_or_broadcast t ip) h.0 ∙ h.2)

abbrev first_allocator : Subnet → IpAllocator
first_allocator s = record {
  subnet = s;
  allocated = [];
  next_ip = increment_from (length s.ip) s.ip;
}

first-IsUnused : (s : Subnet) → IsUnused (first_allocator s)
unfolding is_allocated lookup
first-IsUnused s jp = refl

module _ (parse_cidr : String → Option Subnet) (parse_ip : String → Option Ip) where
  choose_local_ip-Holds :
      (a b : IpAllocator) (configured : String) (ip : Ip)
      → IsUnused a
      → choose_local_ip parse_cidr parse_ip a configured ≡ ok (ip, b)
      → Holds a.subnet ip b
  unfolding choose_local_ip
  choose_local_ip-Holds a b configured ip unused =
      if_cases P (not (configured == ""))
        (λ _ e.
          let (jp, parsed, claimed) =
            >>=-eq-ok (or_fail (parse_ip configured) invalid_local_ip)
              (λ jp. claim jp (allocate_specific_ip a jp)) e in
          claim-Holds a b jp ip unused claimed)
        (λ _ e. take_next-Holds a b ip unused e)
    where
      P : Result Error (Ip × IpAllocator) → Type 0
      P r = r ≡ ok (ip, b) → Holds a.subnet ip b

  manager_on-Holds :
      (config : ManagerConfig) (s : Subnet) (m : Manager)
      → manager_on parse_cidr parse_ip config s ≡ ok m
      → Starts s m
  unfolding manager_on new_ip_allocator
  manager_on-Holds config s m h =
      let (chosen, e, built) =
        >>=-eq-ok (choose_local_ip parse_cidr parse_ip (first_allocator s) config.local_ip)
          (assemble config s) h in
      assemble-Starts config s chosen.0 chosen.1 m built (
        choose_local_ip-Holds (first_allocator s) chosen.1 config.local_ip chosen.0
          (first-IsUnused s) e)

  -- A manager that NewManager makes is stopped and its interface shut; its allocator serves the
  -- manager's subnet and has handed out the local address alone, which is neither the subnet's own nor
  -- its broadcast address; its gateway is the first host, or the address behind the local one if the
  -- local address is the first host, so it is never the local address; and the gateway is not
  -- recorded as handed out.
  pub new_manager-Starts :
      (config : ManagerConfig) (m : Manager)
      → new_manager parse_cidr parse_ip config ≡ ok m
      → Starts m.subnet m
  unfolding new_manager
  new_manager-Starts config m h =
      let (s, cidr, on) =
        >>=-eq-ok (or_fail (parse_cidr config.subnet_cidr) invalid_subnet)
          (manager_on parse_cidr parse_ip config) h in
      let starts = manager_on-Holds config s m on in
      subst (λ t. Starts t m) (sym starts.subnet) starts
