-- ===== src/Vpn/Allocator.antt =====
-- src/internal/vpn/ipallocator.go. The allocator's mutex makes each operation one step. A subnet is as
-- net.ParseCIDR makes it, its mask as long as its address.
pub mod Increment
pub mod Scan
pub mod Lifecycle
pub mod Handout
pub mod Escape
pub mod Cidr
pub mod Size
pub mod Inside
use Prim.Native.Nat.{bit_or}
use peer_mesh.Prelude.{
  ℕ, zero, suc, ◌+◌, ◌-◌, ◌*◌, ◌^◌, ◌%◌, Bool, true, false, not, ◌&&◌, ◌||◌, Option, none, some,
  List, [], ◌∷◌, length, get_or, set, ltb, ◌==◌, nat_eq, list_eq, if◌then◌else◌, Result, ok, err,
}
use peer_mesh.Prelude.Int.{ℤ, pos, negsuc, pos_part, ◌-ℤ◌}
use peer_mesh.Prelude.Assoc.{Assoc, lookup, insert, erase}
use peer_mesh.Net.{Ip, Subnet, equal, text, parse_text, mask_size, subnet_contains, net_runs}

pub record IpAllocator : Type 0 where
  pub subnet : Subnet
  pub allocated : Assoc (List ℕ) Bool
  pub next_ip : Ip

pub data Error : Type 0 where
  nil_subnet no_available_ip not_in_subnet network_or_broadcast already_allocated not_allocated :
      Error

-- The loop `for i := len - 1; i >= 0; i--` from i = n - 1: add one, and go on while it wraps.
unfoldable pub increment_from : ℕ → Ip → Ip
increment_from zero ip = ip
increment_from (suc i) ip =
    let next = set ip i ((get_or ip i 0 + 1) % 256) in
    let rest = increment_from i next in if get_or next i 0 == 0 then rest else next

unfoldable pub increment_ip : Ip → Ip
unfolding increment_from
increment_ip ip = increment_from (length ip) ip

unfoldable pub new_ip_allocator : Option Subnet → Result Error IpAllocator
unfolding increment_from
new_ip_allocator none = err nil_subnet
new_ip_allocator (some subnet) = ok (record {
  subnet = subnet;
  allocated = [];
  next_ip = increment_from (length subnet.ip) subnet.ip;
})

-- `broadcast[i] |= ^mask[i]`, for a mask as long as the address, as ParseCIDR makes it
unfoldable pub or_not : List ℕ → List ℕ → Ip
or_not [] mask = []
or_not (b ∷ bs) [] = b ∷ bs
or_not (b ∷ bs) (m ∷ ms) = bit_or b (255 - m) ∷ or_not bs ms

unfoldable pub broadcast_address : Subnet → Ip
unfolding or_not
broadcast_address s = or_not s.ip s.mask

-- 1 << n of a 64-bit int
unfoldable pub shift_one : ℕ → ℤ
shift_one n = if ltb n 63 then pos (2 ^ n) else if n == 63 then negsuc (2 ^ 63 - 1) else pos 0

unfoldable pub total_ips : Subnet → ℤ
total_ips s = let (ones, bits) = mask_size s.mask in shift_one (bits - ones)

unfoldable pub is_network_or_broadcast : Subnet → Ip → Bool
is_network_or_broadcast s ip =
    if equal ip s.ip then true else if equal ip (broadcast_address s) then true else false

-- `a.allocated[ip.String()]`
unfoldable pub is_allocated : IpAllocator → Ip → Bool
is_allocated a ip = elim (lookup (text ip) a.allocated) [ none ↦ false | some b ↦ b ]

-- The rounds left of the scan, and the address that it looks at.
unfoldable pub find_from : IpAllocator → ℕ → Ip → Option Ip
find_from a zero current = none
find_from a (suc rounds) current =
    let rest = find_from a rounds (increment_ip current) in
    if not (is_network_or_broadcast a.subnet current)
    then (if not (is_allocated a current) then some current else rest)
    else rest

-- The cursor moves behind an address that was found.
unfoldable pub advance : IpAllocator → Option Ip → Option Ip × IpAllocator
advance a none = (none, a)
advance a (some ip) = (some ip, record a { next_ip = increment_ip ip })

unfoldable pub find_next_available_ip : IpAllocator → Option Ip × IpAllocator
unfolding advance
find_next_available_ip a = advance a (find_from a (pos_part (total_ips a.subnet)) a.next_ip)

unfoldable pub mark : Option Ip × IpAllocator → Result Error Ip × IpAllocator
mark (none, a) = (err no_available_ip, a)
mark (some ip, a) = (ok ip, record a { allocated = insert (text ip) true a.allocated })

unfoldable pub allocate_ip : IpAllocator → Result Error Ip × IpAllocator
unfolding find_next_available_ip mark
allocate_ip a = mark (find_next_available_ip a)

unfoldable pub allocate_specific_ip : IpAllocator → Ip → Result Error Unit × IpAllocator
allocate_specific_ip a ip =
    if not (subnet_contains a.subnet ip)
    then (err not_in_subnet, a)
    else if is_network_or_broadcast a.subnet ip
    then (err network_or_broadcast, a)
    else if is_allocated a ip
    then (err already_allocated, a)
    else (ok tt, record a { allocated = insert (text ip) true a.allocated })

unfoldable pub release_ip : IpAllocator → Ip → Result Error Unit × IpAllocator
release_ip a ip =
    if not (is_allocated a ip)
    then (err not_allocated, a)
    else (ok tt, record a { allocated = erase (text ip) a.allocated })

unfoldable pub available_count : IpAllocator → ℤ
available_count a = total_ips a.subnet -ℤ pos (length a.allocated) -ℤ pos 2

-- The loop over the map's keys.
unfoldable pub parse_keys : Assoc (List ℕ) Bool → List Ip
unfolding parse_text
parse_keys [] = []
parse_keys ((key, b) ∷ m) = elim (parse_text key) [
  | none ↦ parse_keys m
  | some ip ↦ ip ∷ parse_keys m
]

unfoldable pub allocated_ips : IpAllocator → List Ip
unfolding parse_keys
allocated_ips a = parse_keys a.allocated

unfoldable pub gateway_ip : IpAllocator → Ip
unfolding increment_from
gateway_ip a = increment_from (length a.subnet.ip) a.subnet.ip

unfoldable pub dns_ips : IpAllocator → List Ip
unfolding increment_ip gateway_ip
dns_ips a =
    let dns1 = increment_ip (gateway_ip a) in let dns2 = increment_ip dns1 in dns1 ∷ dns2 ∷ []

-- What a run of the operations opens.
unfoldable pub allocator_runs : ℕ
unfolding net_runs lookup insert erase increment_ip new_ip_allocator broadcast_address shift_one
    total_ips is_network_or_broadcast is_allocated find_from allocate_ip allocate_specific_ip
    release_ip available_count
allocator_runs = 0
