-- ===== src/Vpn/Allocator/Lifecycle.antt =====
-- What a history of calls does to the set of addresses that are handed out.
use peer_mesh.Prelude.{
  ℕ, ◌≡◌, ◌≢◌, refl, true, false, not, ◌&&◌, inl, inr, List, [], ◌∷◌, Option, none, some,
  Bool-cases, if_cases, arith, ◌==◌, list_eq, list_beq_iff, Result, ok, err, if◌then◌else◌,
}
use peer_mesh.Prelude.Int.{pos_part}
use peer_mesh.Prelude.Assoc.{
  Distinct, lookup, insert, erase, lookup-insert, lookup-erase, insert-Distinct, erase-Distinct,
}
use peer_mesh.Net.{Ip, Subnet, text, subnet_contains}
use peer_mesh.Net.Equality.{equal-text}
use peer_mesh.Vpn.Allocator.{
  IpAllocator, Error, no_available_ip, new_ip_allocator, total_ips, is_network_or_broadcast,
  is_allocated, allocate_ip, allocate_specific_ip, release_ip,
}
use peer_mesh.Vpn.Allocator.Scan.{is_free, taken, Allocates, IsFirstFree, allocate_ip-first}

pub data Op : Type 0 where
  allocates : Op
  allocates_specific releases : Ip → Op

unfoldable pub step : IpAllocator → Op → IpAllocator
step a allocates = (allocate_ip a).1
step a (allocates_specific ip) = (allocate_specific_ip a ip).1
step a (releases ip) = (release_ip a ip).1

unfoldable pub run : IpAllocator → List Op → IpAllocator
run a [] = a
run a (op ∷ ops) = run (step a op) ops

-- No key twice, no key with the mark `false`, and no address handed out that names the network or is its broadcast address.
pub record IsValid (a : IpAllocator) : Type 0 where
  pub distinct : Distinct a.allocated
  pub marks : (key : List ℕ) → lookup key a.allocated ≢ some false
  pub hosts : (ip : Ip) → (is_allocated a ip && is_network_or_broadcast a.subnet ip) ≡ false

-- Both tests read an address through its text.
reserved-text :
    (s : Subnet) (a b : Ip)
    → text a ≡ text b
    → is_network_or_broadcast s a ≡ is_network_or_broadcast s b
unfolding is_network_or_broadcast
reserved-text s a b e = simp (equal-text, e)

-- Marking an address changes the answer for that address alone.
pub is_allocated-insert :
    (a : IpAllocator) (ip jp : Ip) (cursor : Ip)
    → is_allocated (record a { allocated = insert (text ip) true a.allocated; next_ip = cursor }) jp
      ≡ (if text ip == text jp then true else is_allocated a jp)
unfolding is_allocated
is_allocated-insert a ip jp cursor =
    ground (arith, lookup-insert (text ip) (text jp) true a.allocated)

pub is_allocated-erase :
    (a : IpAllocator) (ip jp : Ip)
    → is_allocated (record a { allocated = erase (text ip) a.allocated }) jp
      ≡ (if text ip == text jp then false else is_allocated a jp)
unfolding is_allocated
is_allocated-erase a ip jp = ground (arith, lookup-erase (text ip) (text jp) a.allocated)

-- Marking a free address keeps a valid allocator valid.
mark-IsValid :
    (a : IpAllocator) (ip cursor : Ip)
    → is_network_or_broadcast a.subnet ip ≡ false
    → IsValid a
    → IsValid (record a { allocated = insert (text ip) true a.allocated; next_ip = cursor })
mark-IsValid a ip cursor host v = record {
  distinct = insert-Distinct (text ip) true a.allocated v.distinct;
  marks = λ key h. ground (arith, lookup-insert (text ip) key true a.allocated, v.marks key);
  hosts = λ jp. ground (
    arith,
    is_allocated-insert a ip jp cursor,
    list_beq_iff (text ip) (text jp),
    reserved-text a.subnet ip jp,
    v.hosts jp,
  );
}

-- AllocateIP either marks a free address or changes nothing.
pub allocate_cases {ℓ} :
    (P : Result Error Ip × IpAllocator → Type ℓ) (a : IpAllocator)
    → ((ip : Ip) → is_free a ip ≡ true → P (ok ip, taken a ip))
    → P (err no_available_ip, a)
    → P (allocate_ip a)
allocate_cases P a found full = go (allocate_ip-first a)
  where
    go :
        (ip : Option Ip) × IsFirstFree a (pos_part (total_ips a.subnet)) a.next_ip ip
          × Allocates a ip (allocate_ip a)
        → P (allocate_ip a)
    go (none, first, e) = rw e full
    go (some ip, (k, lt, at, free, before), e) = rw e (found ip free)

pub is_free_host :
    (a : IpAllocator) (ip : Ip) → is_free a ip ≡ true → is_network_or_broadcast a.subnet ip ≡ false
is_free_host a ip h = ground arith

pub is_free_new : (a : IpAllocator) (ip : Ip) → is_free a ip ≡ true → is_allocated a ip ≡ false
is_free_new a ip h = ground arith

allocate_specific-IsValid :
    (a : IpAllocator) (ip : Ip) → IsValid a → IsValid (allocate_specific_ip a ip).1
unfolding allocate_specific_ip
allocate_specific-IsValid a ip v =
    if_cases P (not (subnet_contains a.subnet ip)) (λ _. v)
      λ _.
        if_cases P (is_network_or_broadcast a.subnet ip) (λ _. v)
          λ host. if_cases P (is_allocated a ip) (λ _. v) (λ _. mark-IsValid a ip a.next_ip host v)
  where
    P : Result Error Unit × IpAllocator → Type 0
    P r = IsValid r.1

release-IsValid : (a : IpAllocator) (ip : Ip) → IsValid a → IsValid (release_ip a ip).1
unfolding release_ip
release-IsValid a ip v = elim (Bool-cases (is_allocated a ip)) [
  | inr e ↦ rw e v
  | inl e ↦ rw e (record {
    distinct = erase-Distinct (text ip) a.allocated v.distinct;
    marks = λ key h. ground (arith, lookup-erase (text ip) key a.allocated, v.marks key);
    hosts = λ jp. ground (arith, is_allocated-erase a ip jp, v.hosts jp);
  })
]

pub step-IsValid : (a : IpAllocator) (op : Op) → IsValid a → IsValid (step a op)
unfolding step
step-IsValid a allocates v =
    allocate_cases (λ r. IsValid r.1) a (λ ip free. mark-IsValid a ip _ (is_free_host a ip free) v)
      v
step-IsValid a (allocates_specific ip) v = allocate_specific-IsValid a ip v
step-IsValid a (releases ip) v = release-IsValid a ip v

run-IsValid_from : (a : IpAllocator) (ops : List Op) → IsValid a → IsValid (run a ops)
unfolding run
run-IsValid_from a [] v = v
run-IsValid_from a (op ∷ ops) v = run-IsValid_from (step a op) ops (step-IsValid a op v)

ok-injective : {a b : IpAllocator} → ◌≡◌ {A = Result Error IpAllocator} (ok a) (ok b) → a ≡ b
ok-injective e = cc

-- After any history of calls on a new allocator no address is recorded twice, each record says that
-- its address is handed out, and the network and broadcast addresses are not handed out.
pub history-IsValid :
    (s : Subnet) (a : IpAllocator) (ops : List Op)
    → new_ip_allocator (some s) ≡ ok a
    → IsValid (run a ops)
unfolding new_ip_allocator is_allocated lookup
history-IsValid s a ops h = run-IsValid_from a ops (fresh h)
  where
    fresh : new_ip_allocator (some s) ≡ ok a → IsValid a
    fresh h =
        rw (← ok-injective h) (record { distinct = tt; marks = λ key e. cc; hosts = λ ip. refl })
