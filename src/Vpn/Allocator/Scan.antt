-- ===== src/Vpn/Allocator/Scan.antt =====
-- findNextAvailableIP and AllocateIP against a search for the first free address.
use peer_mesh.Prelude.{
  ℕ, zero, suc, ◌<◌, ◌≡◌, refl, Bool, true, false, not, ◌&&◌, inl, inr, Option, none, some,
  Bool-cases, arith, list_eq, Result, ok, err,
}
use peer_mesh.Prelude.Int.{pos_part}
use peer_mesh.Prelude.Assoc.{insert}
use peer_mesh.Net.{Ip, text}
use peer_mesh.Vpn.Allocator.{
  IpAllocator, Error, no_available_ip, increment_ip, total_ips, is_network_or_broadcast,
  is_allocated, find_from, advance, mark, allocate_ip,
}
use peer_mesh.Vpn.Allocator.Increment.{skip}

-- Neither the network's own nor its broadcast address, and not handed out.
abbrev pub is_free : IpAllocator → Ip → Bool
is_free a ip = not (is_network_or_broadcast a.subnet ip) && not (is_allocated a ip)

-- None of the `n` addresses from `ip` on is free.
abbrev pub NoneFree : IpAllocator → ℕ → Ip → Type 0
NoneFree a zero ip = Unit
NoneFree a (suc n) ip = (is_free a ip ≡ false) × NoneFree a n (increment_ip ip)

-- The first free address among `n` from `ip` on is `r`, or there is none.
abbrev pub IsFirstFree : IpAllocator → ℕ → Ip → Option Ip → Type 0
IsFirstFree a n ip (some r) =
    (k : ℕ) × (k < n) × (r ≡ skip k ip) × (is_free a r ≡ true) × NoneFree a k ip
IsFirstFree a n ip none = NoneFree a n ip

IsFirstFree-suc :
    (a : IpAllocator) (n : ℕ) (ip : Ip) (r : Option Ip)
    → is_free a ip ≡ false
    → IsFirstFree a n (increment_ip ip) r
    → IsFirstFree a (suc n) ip r
IsFirstFree-suc a n ip none used rest = (used, rest)
IsFirstFree-suc a n ip (some r) used (k, lt, e, free, before) =
    (suc k, omega arith, e, free, (used, before))

pub find_from-IsFirstFree :
    (a : IpAllocator) (n : ℕ) (ip : Ip) → IsFirstFree a n ip (find_from a n ip)
unfolding find_from
find_from-IsFirstFree a zero ip = tt
find_from-IsFirstFree a (suc n) ip =
    let rest = find_from-IsFirstFree a n (increment_ip ip) in
    elim (Bool-cases (is_network_or_broadcast a.subnet ip)) [
      | inl e ↦ rw e (IsFirstFree-suc a n ip _ (rw e) rest)
      | inr e ↦ elim (Bool-cases (is_allocated a ip)) [
        | inl u ↦ rw (e, u) (IsFirstFree-suc a n ip _ (rw (e, u)) rest)
        | inr u ↦ rw (e, u) (0, omega arith, refl, rw (e, u), tt)
      ]
    ]

-- The allocator after it has handed `ip` out.
abbrev pub taken : IpAllocator → Ip → IpAllocator
taken a ip = record a { allocated = insert (text ip) true a.allocated; next_ip = increment_ip ip }

abbrev pub Allocates : IpAllocator → Option Ip → Result Error Ip × IpAllocator → Type 0
Allocates a (some ip) r = r ≡ (ok ip, taken a ip)
Allocates a none r = r ≡ (err no_available_ip, a)

abbrev pub found : IpAllocator → Option Ip
found a = find_from a (pos_part (total_ips a.subnet)) a.next_ip

mark-advance : (a : IpAllocator) (r : Option Ip) → Allocates a r (mark (advance a r))
unfolding mark advance
mark-advance a none = refl
mark-advance a (some ip) = refl

allocate_ip-Allocates : (a : IpAllocator) → Allocates a (found a) (allocate_ip a)
unfolding allocate_ip
allocate_ip-Allocates a = mark-advance a (found a)

-- AllocateIP hands out the first free address from the cursor on, within as many addresses as
-- the subnet has, marks it and moves the cursor behind it; with none free it fails and changes
-- nothing.
pub allocate_ip-first :
    (a : IpAllocator)
    → (ip : Option Ip) × IsFirstFree a (pos_part (total_ips a.subnet)) a.next_ip ip
      × Allocates a ip (allocate_ip a)
allocate_ip-first a = (found a, find_from-IsFirstFree a _ a.next_ip, allocate_ip-Allocates a)
