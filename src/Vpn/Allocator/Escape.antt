-- ===== src/Vpn/Allocator/Escape.antt =====
-- The scan does not wrap around: what it does at the end of a subnet.
use Prim.Native.Nat.{bit_and, bit_or}
use peer_mesh.Prelude.{
  ℕ, suc, ◌+◌, ◌%◌, ◌<◌, ◌≡◌, refl, ap, ◌∙◌, true, false, [], ◌∷◌, some, arith, ◌==◌, nat_eq,
  list_eq, list_beq, nat_beq_iff, ok,
}
use peer_mesh.Prelude.Int.{pos_part}
use peer_mesh.Prelude.Bytes.{all_below, all_below_sound}
use peer_mesh.Net.{Ip, Subnet, equal, subnet_contains, mask_size}
use peer_mesh.Vpn.Allocator.{
  IpAllocator, increment_ip, broadcast_address, total_ips, shift_one, is_network_or_broadcast,
  is_allocated, find_from, allocate_ip,
}

or_zero : (x : ℕ) → x < 256 → bit_or x 0 ≡ x
or_zero x h = (nat_beq_iff _ x).0 (all_below_sound 256 (λ y. bit_or y 0 == y) x table h)
  where
    table : all_below 256 (λ y. bit_or y 0 == y) ≡ true
    table = unfold all_below in refl

and_ones : (x : ℕ) → x < 256 → bit_and x 255 ≡ x
and_ones x h = (nat_beq_iff _ x).0 (all_below_sound 256 (λ y. bit_and y 255 == y) x table h)
  where
    table : all_below 256 (λ y. bit_and y 255 == y) ≡ true
    table = unfold all_below in refl

-- The subnet x.y.z.0/24.
abbrev pub subnet24 : ℕ → ℕ → ℕ → Subnet
subnet24 x y z = record { ip = x ∷ y ∷ z ∷ 0 ∷ []; mask = 255 ∷ 255 ∷ 255 ∷ 0 ∷ [] }

module _ (x y z : ℕ) (hx : x < 256) (hy : y < 256) (hz : z < 255) where
  total24 : pos_part (total_ips (subnet24 x y z)) ≡ suc (suc 254)
  unfolding total_ips shift_one mask_size
  total24 = refl

  broadcast24 : broadcast_address (subnet24 x y z) ≡ x ∷ y ∷ z ∷ 255 ∷ []
  unfolding broadcast_address
  broadcast24 = rw (or_zero x hx, or_zero y hy, or_zero z (omega arith)) refl

  reserved24 : is_network_or_broadcast (subnet24 x y z) (x ∷ y ∷ z ∷ 255 ∷ []) ≡ true
  unfolding is_network_or_broadcast equal list_beq
  reserved24 = rw broadcast24 (ground arith)

  open24 : is_network_or_broadcast (subnet24 x y z) (x ∷ y ∷ (z + 1) ∷ 0 ∷ []) ≡ false
  unfolding is_network_or_broadcast equal list_beq
  open24 = rw broadcast24 (ground arith)

  next24 : increment_ip (x ∷ y ∷ z ∷ 255 ∷ []) ≡ x ∷ y ∷ (z + 1) ∷ 0 ∷ []
  unfolding increment_ip
  next24 = let e : (z + 1) % 256 ≡ z + 1 = omega arith in ground (arith, e)

  outside24 : subnet_contains (subnet24 x y z) (x ∷ y ∷ (z + 1) ∷ 0 ∷ []) ≡ false
  unfolding subnet_contains
  outside24 = rw (and_ones z (omega arith), and_ones (z + 1) (omega arith)) (ground arith)

find_from_skip :
    (a : IpAllocator) (n : ℕ) (ip : Ip)
    → is_network_or_broadcast a.subnet ip ≡ true
    → find_from a (suc n) ip ≡ find_from a n (increment_ip ip)
unfolding find_from
find_from_skip a n ip h = rw h refl

find_from_here :
    (a : IpAllocator) (n : ℕ) (ip : Ip)
    → is_network_or_broadcast a.subnet ip ≡ false
    → is_allocated a ip ≡ false
    → find_from a (suc n) ip ≡ some ip
unfolding find_from
find_from_here a n ip h k = rw (h, k) refl

allocate_ip-found :
    (a : IpAllocator) (ip : Ip)
    → find_from a (pos_part (total_ips a.subnet)) a.next_ip ≡ some ip
    → (allocate_ip a).0 ≡ ok ip
unfolding allocate_ip
allocate_ip-found a ip h = rw h refl

-- With the cursor of a /24 subnet x.y.z.0, z below 255, on the broadcast address and x.y.(z+1).0 not
-- handed out, AllocateIP hands that address out, which is not in the subnet, whether or not
-- addresses of the subnet are free.
pub allocate_ip-escapes :
    (x y z : ℕ) (a : IpAllocator)
    → x < 256
    → y < 256
    → z < 255
    → a.subnet ≡ subnet24 x y z
    → a.next_ip ≡ x ∷ y ∷ z ∷ 255 ∷ []
    → is_allocated a (x ∷ y ∷ (z + 1) ∷ 0 ∷ []) ≡ false
    → ((allocate_ip a).0 ≡ ok (x ∷ y ∷ (z + 1) ∷ 0 ∷ []))
      × (subnet_contains a.subnet (x ∷ y ∷ (z + 1) ∷ 0 ∷ []) ≡ false)
allocate_ip-escapes x y z a hx hy hz s c free =
    (allocate_ip-found a _ found, rw s (outside24 x y z hx hy hz))
  where
    total : pos_part (total_ips a.subnet) ≡ 256
    total = ap (λ (t : Subnet). pos_part (total_ips t)) s ∙ total24 x y z hx hy hz

    found : find_from a (pos_part (total_ips a.subnet)) a.next_ip ≡ some (x ∷ y ∷ (z + 1) ∷ 0 ∷ [])
    found =
        ap (λ (n : ℕ). find_from a n a.next_ip) total
        ∙ ap (λ (ip : Ip). find_from a 256 ip) c
        ∙ find_from_skip a 255 (x ∷ y ∷ z ∷ 255 ∷ []) (rw s (reserved24 x y z hx hy hz))
        ∙ ap (λ (ip : Ip). find_from a 255 ip) (next24 x y z hx hy hz)
        ∙ find_from_here a 254 _ (rw s (open24 x y z hx hy hz)) free
