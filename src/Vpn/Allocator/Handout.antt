-- ===== src/Vpn/Allocator/Handout.antt =====
-- Addresses in use: nobody gets one twice, and the counts follow.
use peer_mesh.Prelude.{
  ◌≡◌, ◌≢◌, refl, ◌∙◌, true, false, ◌&&◌, List, [], ◌∷◌, none, arith, ◌==◌, list_eq, list_beq_iff,
  ok, err, if◌then◌else◌,
}
use peer_mesh.Prelude.Int.{pos, ◌+ℤ◌}
use peer_mesh.Prelude.Assoc.{
  length-insert, length-erase, length-pos, lookup, insert, erase, beq_self,
}
use peer_mesh.Net.{Ip, text, subnet_contains}
use peer_mesh.Vpn.Allocator.{
  IpAllocator, is_network_or_broadcast, is_allocated, allocate_ip, not_allocated,
  allocate_specific_ip, release_ip, available_count,
}
use peer_mesh.Vpn.Allocator.Lifecycle.{
  Op, allocates, allocates_specific, releases, step, run, IsValid, allocate_cases, is_free_new,
  is_allocated-insert, is_allocated-erase,
}

-- No call of the history releases `ip`.
abbrev pub Keeps : Ip → List Op → Type 0
Keeps ip [] = Unit {0}
Keeps ip (releases jp ∷ ops) = (text jp ≢ text ip) × Keeps ip ops
Keeps ip (_ ∷ ops) = Keeps ip ops

allocate-keeps :
    (a : IpAllocator) (ip : Ip)
    → is_allocated a ip ≡ true
    → is_allocated (allocate_ip a).1 ip ≡ true
allocate-keeps a ip h =
    allocate_cases (λ r. is_allocated r.1 ip ≡ true) a
      (λ jp free. is_allocated-insert a jp ip _ ∙ ground arith) h

allocate_specific-keeps :
    (a : IpAllocator) (ip jp : Ip)
    → is_allocated a ip ≡ true
    → is_allocated (allocate_specific_ip a jp).1 ip ≡ true
unfolding allocate_specific_ip
allocate_specific-keeps a ip jp h = ground (arith, is_allocated-insert a jp ip a.next_ip)

release-keeps :
    (a : IpAllocator) (ip jp : Ip)
    → text jp ≢ text ip
    → is_allocated a ip ≡ true
    → is_allocated (release_ip a jp).1 ip ≡ true
unfolding release_ip
release-keeps a ip jp ne h =
    ground (arith, is_allocated-erase a jp ip, list_beq_iff (text jp) (text ip))

run-Keeps :
    (a : IpAllocator) (ip : Ip) (ops : List Op)
    → Keeps ip ops
    → is_allocated a ip ≡ true
    → is_allocated (run a ops) ip ≡ true
unfolding run step
run-Keeps a ip [] k h = h
run-Keeps a ip (allocates ∷ ops) k h = run-Keeps (allocate_ip a).1 ip ops k (allocate-keeps a ip h)
run-Keeps a ip (allocates_specific jp ∷ ops) k h =
    run-Keeps (allocate_specific_ip a jp).1 ip ops k (allocate_specific-keeps a ip jp h)
run-Keeps a ip (releases jp ∷ ops) k h =
    run-Keeps (release_ip a jp).1 ip ops k.1 (release-keeps a ip jp k.0 h)

-- What AllocateIP returns was not handed out before.
allocate_ip-new :
    (a : IpAllocator) (jp : Ip) → (allocate_ip a).0 ≡ ok jp → is_allocated a jp ≡ false
allocate_ip-new a jp h =
    allocate_cases (λ r. r.0 ≡ ok jp → is_allocated a jp ≡ false) a
      (λ ip free e. ground (arith, is_free_new a ip free)) (λ e. cc) h

-- An address that is handed out and not released is not returned again, whatever is called in
-- between.
pub allocate-run_new :
    (a : IpAllocator) (ip : Ip) (ops : List Op) (jp : Ip)
    → is_allocated a ip ≡ true
    → Keeps ip ops
    → (allocate_ip (run a ops)).0 ≡ ok jp
    → text jp ≢ text ip
unfolding is_allocated
allocate-run_new a ip ops jp h k e same =
    ground (arith, allocate_ip-new (run a ops) jp e, run-Keeps a ip ops k h, same)

absent :
    (a : IpAllocator) (ip : Ip)
    → IsValid a
    → is_allocated a ip ≡ false
    → lookup (text ip) a.allocated ≡ none
unfolding is_allocated
absent a ip v h = ground (arith, v.marks (text ip))

-- Each address that AllocateIP hands out of a valid allocator costs one of the available ones.
pub available_count-allocate :
    (a : IpAllocator) (ip : Ip)
    → IsValid a
    → (allocate_ip a).0 ≡ ok ip
    → available_count a ≡ available_count (allocate_ip a).1 +ℤ pos 1
unfolding available_count
available_count-allocate a ip v h =
    allocate_cases (λ r. r.0 ≡ ok ip → available_count a ≡ available_count r.1 +ℤ pos 1) a
      (λ jp free e.
        ground
          (arith, length-insert (text jp) true a.allocated, absent a jp v (is_free_new a jp free)))
      (λ e. cc) h

abbrev released : IpAllocator → Ip → IpAllocator
released a ip = record a { allocated = erase (text ip) a.allocated }

release_lem :
    (a : IpAllocator) (ip : Ip)
    → is_allocated a ip ≡ true
    → release_ip a ip ≡ (ok tt, released a ip)
unfolding release_ip
release_lem a ip h = rw h refl

released_free : (a : IpAllocator) (ip : Ip) → is_allocated (released a ip) ip ≡ false
released_free a ip = is_allocated-erase a ip ip ∙ rw (beq_self (text ip)) refl

available_count-released :
    (a : IpAllocator) (ip : Ip)
    → IsValid a
    → is_allocated a ip ≡ true
    → available_count (released a ip) ≡ available_count a +ℤ pos 1
unfolding available_count is_allocated
available_count-released a ip v h =
    ground (arith, length-erase (text ip) a.allocated v.distinct, length-pos (text ip) a.allocated)

is_allocated-text :
    (a : IpAllocator) (ip jp : Ip) → text ip ≡ text jp → is_allocated a ip ≡ is_allocated a jp
unfolding is_allocated
is_allocated-text a ip jp e = rw (e, is_allocated) refl

allocate_specific_lem :
    (a : IpAllocator) (ip : Ip)
    → subnet_contains a.subnet ip ≡ true
    → is_network_or_broadcast a.subnet ip ≡ false
    → is_allocated a ip ≡ false
    → allocate_specific_ip a ip
      ≡ (ok tt, record a { allocated = insert (text ip) true a.allocated })
unfolding allocate_specific_ip
allocate_specific_lem a ip c host free = rw (c, host, free) refl

-- In a valid allocator, the release of an address of the subnet that is handed out succeeds and
-- raises the available count by one; a second release is refused; and AllocateSpecificIP takes the
-- address again, after which the same addresses are handed out as before.
pub release-allocate_specific :
    (a : IpAllocator) (ip : Ip)
    → IsValid a
    → is_allocated a ip ≡ true
    → subnet_contains a.subnet ip ≡ true
    → let b = (release_ip a ip).1 in
      ((release_ip a ip).0 ≡ ok tt)
      × (available_count b ≡ available_count a +ℤ pos 1)
      × ((release_ip b ip).0 ≡ err not_allocated)
      × ((allocate_specific_ip b ip).0 ≡ ok tt)
      × ((jp : Ip) → is_allocated (allocate_specific_ip b ip).1 jp ≡ is_allocated a jp)
unfolding release_ip
release-allocate_specific a ip v h c = simp release_lem (
  refl,
  available_count-released a ip v h,
  rw (released_free a ip, release_ip) refl,
  rw retaken refl,
  λ jp. rw retaken (is_allocated-insert (released a ip) ip jp a.next_ip ∙ same jp),
)
  where
    host :
        (is_allocated a ip && is_network_or_broadcast a.subnet ip) ≡ false
        → is_network_or_broadcast a.subnet ip ≡ false
    host e = ground arith

    retaken :
        allocate_specific_ip (released a ip) ip
        ≡ (ok tt, record a { allocated = insert (text ip) true (erase (text ip) a.allocated) })
    retaken = allocate_specific_lem (released a ip) ip c (host (v.hosts ip)) (released_free a ip)

    same :
        (jp : Ip)
        → (if text ip == text jp then true else is_allocated (released a ip) jp) ≡ is_allocated a jp
    same jp = ground (
      arith,
      is_allocated-erase a ip jp,
      list_beq_iff (text ip) (text jp),
      is_allocated-text a ip jp,
    )
