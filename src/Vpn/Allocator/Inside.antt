-- ===== src/Vpn/Allocator/Inside.antt =====
-- AllocateIP on an IPv4 subnet: as long as an address before the broadcast address is free.
use peer_mesh.Prelude.{
  ℕ, zero, suc, ◌+◌, ◌≤◌, ◌<◌, ◌^◌, subst, ◌≡◌, refl, ap, sym, ◌∙◌, true, Option, none, some, ◌-◌,
  length, nat_eq, arith, Result, ok,
}
use peer_mesh.Prelude.Int.{pos_part}
use peer_mesh.Prelude.Bytes.{AreBytes, value}
use peer_mesh.Net.{
  mask_size, Ip, Subnet, text, to4, simple_mask_length, network_number_and_mask, same_network,
  subnet_contains,
}
use peer_mesh.Vpn.Allocator.{
  IpAllocator, Error, increment_ip, broadcast_address, shift_one, total_ips, allocate_ip,
}
use peer_mesh.Vpn.Allocator.Increment.{skip, skip-AreBytes, length-skip, value-skip}
use peer_mesh.Vpn.Allocator.Scan.{is_free, NoneFree, IsFirstFree, Allocates, allocate_ip-first}
use peer_mesh.Vpn.Allocator.Size.{network_size}
use peer_mesh.Vpn.Allocator.Cidr.{
  IsMasked, simple_mask_length-IsMask, same_network-between, value-or_not_lt,
}

-- An IPv4 subnet as net.ParseCIDR returns it.
pub record IsV4Cidr (s : Subnet) : Type 0 where
  pub four : length s.ip ≡ 4
  pub mask_four : length s.mask ≡ 4
  pub bytes : AreBytes s.ip
  pub mask_bytes : AreBytes s.mask
  pub masked : IsMasked s.ip s.mask
  pub ones : ℕ
  pub is_mask : simple_mask_length s.mask ≡ some ones

to4-four : (ip : Ip) → length ip ≡ 4 → to4 ip ≡ some ip
unfolding to4
to4-four ip h = rw h refl

text-four : (ip : Ip) → length ip ≡ 4 → text ip ≡ ip
unfolding text
text-four ip h = rw (text, to4-four ip h) refl

network-four : (s : Subnet) → IsV4Cidr s → network_number_and_mask s ≡ some (s.ip, s.mask)
unfolding network_number_and_mask
network-four s v = rw (to4-four s.ip v.four) (rw (v.four, v.mask_four) refl)

contains-between :
    (s : Subnet) (ip : Ip)
    → IsV4Cidr s
    → AreBytes ip
    → length ip ≡ 4
    → value s.ip ≤ value ip
    → value ip ≤ value (broadcast_address s)
    → subnet_contains s ip ≡ true
unfolding broadcast_address subnet_contains
contains-between s ip v b l le1 le2 =
    let within : same_network s.mask s.ip ip ≡ true =
      same_network-between s.mask s.ip ip (simple_mask_length-IsMask s.mask v.ones v.is_mask)
        v.mask_bytes v.bytes b v.masked (l ∙ sym v.four) le1 le2 in
    rw (subnet_contains, network-four s v, text-four ip l) (ground (arith, within, l, v.four))

broadcast-lt : (s : Subnet) → IsV4Cidr s → value (broadcast_address s) < 256 ^ 4
unfolding broadcast_address
broadcast-lt s v = rw v.four at (
    value-or_not_lt s.ip s.mask (simple_mask_length-IsMask s.mask v.ones v.is_mask) v.mask_bytes
      v.bytes v.masked)

mask_size-four : (s : Subnet) (v : IsV4Cidr s) → mask_size s.mask ≡ (v.ones, 32)
unfolding mask_size
mask_size-four s v = rw (mask_size, v.is_mask, v.mask_four) refl

shift_one-below : (n : ℕ) → n < 63 → pos_part (shift_one n) ≡ 2 ^ n
unfolding shift_one
shift_one-below n h = ground (arith, h)

total_ips-four : (s : Subnet) (v : IsV4Cidr s) → pos_part (total_ips s) ≡ 2 ^ (32 - v.ones)
unfolding total_ips
total_ips-four s v = rw (mask_size-four s v) (shift_one-below (32 - v.ones) (omega arith))

-- The subnet's addresses are as many as the scan has rounds.
broadcast-four :
    (s : Subnet)
    → IsV4Cidr s
    → value (broadcast_address s) + 1 ≡ value s.ip + pos_part (total_ips s)
unfolding broadcast_address
broadcast-four s v =
    let (most, size) =
      network_size s.mask s.ip v.ones v.is_mask v.mask_bytes v.bytes v.masked
        (v.mask_four ∙ sym v.four) in
    rw (total_ips-four s v) (rw v.mask_four at size)

-- A free address is no later than none.
free-before :
    (a : IpAllocator) (n j : ℕ) (ip : Ip) → NoneFree a n ip → is_free a (skip j ip) ≡ true → n ≤ j
free-before a zero j ip h f = omega arith
free-before a (suc n) zero ip h f = absurd (cc (h.0, f))
free-before a (suc n) (suc j) ip h f = omega (arith, free-before a n j (increment_ip ip) h.1 f)

-- What a scan finds when the address `j` steps on is free.
found-before :
    (a : IpAllocator) (n j : ℕ) (r : Option Ip)
    → IsFirstFree a n a.next_ip r
    → j < n
    → is_free a (skip j a.next_ip) ≡ true
    → (k : ℕ) × (k ≤ j) × (r ≡ some (skip k a.next_ip))
found-before a n j none first lt free =
    absurd (omega (arith, free-before a n j a.next_ip first free))
found-before a n j (some r) (k, h, e, f, before) lt free =
    (k, free-before a k j a.next_ip before free, ap some e)

-- On an IPv4 subnet as ParseCIDR returns it, with the cursor on one of its addresses: when the address
-- `j` steps on is free and not behind the broadcast address, AllocateIP hands out an address of
-- the subnet, at most `j` steps on.
pub allocate_ip-inside :
    (a : IpAllocator) (j : ℕ)
    → IsV4Cidr a.subnet
    → AreBytes a.next_ip
    → length a.next_ip ≡ 4
    → value a.subnet.ip ≤ value a.next_ip
    → value a.next_ip + j ≤ value (broadcast_address a.subnet)
    → is_free a (skip j a.next_ip) ≡ true
    → (r : Ip) × ((allocate_ip a).0 ≡ ok r)
      × (subnet_contains a.subnet r ≡ true)
      × (value a.next_ip ≤ value r)
      × (value r ≤ value a.next_ip + j)
allocate_ip-inside a j v b l low high free =
    let rounds : j < pos_part (total_ips a.subnet) = omega (arith, broadcast-four a.subnet v) in
    let (r, first, allocates) = allocate_ip-first a in
    let (k, le, e) = found-before a _ j r first rounds free in
    let below : value (broadcast_address a.subnet) < 256 ^ 4 = broadcast-lt a.subnet v in
    let at : value (skip k a.next_ip) ≡ value a.next_ip + k =
      value-skip k a.next_ip b (rw l (omega (arith, le, below))) in
    let four : length (skip k a.next_ip) ≡ 4 = length-skip k a.next_ip ∙ l in
    (
      skip k a.next_ip,
      ap (λ (x : Result Error Ip × IpAllocator). x.0)
          (subst (λ x. Allocates a x (allocate_ip a)) e allocates),
      contains-between a.subnet (skip k a.next_ip) v (skip-AreBytes k a.next_ip b) four
          (omega arith) (omega arith),
      omega arith,
      omega arith,
    )
