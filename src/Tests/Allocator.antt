-- ===== src/Tests/Allocator.antt =====
-- src/internal/vpn/ipallocator.go on the subnets 10.0.0.0/29 and 10.1.2.0/24.
use peer_mesh.Prelude.{
  ℕ, ◌+◌, ◌%◌, ◌^◌, ◌≡◌, ◌≢◌, refl, true, false, Option, some, List, [], ◌∷◌, arith, ok, err,
  list_eq,
}
use peer_mesh.Prelude.Int.{pos, negsuc, pos_part, ◌+ℤ◌}
use peer_mesh.Prelude.Bytes.{value}
use peer_mesh.Net.{Ip, Subnet, text, subnet_contains}
use peer_mesh.Vpn.Allocator.{
  IpAllocator, not_allocated, increment_ip, new_ip_allocator, total_ips, is_allocated, allocate_ip,
  allocate_specific_ip, release_ip, available_count, allocator_runs,
}
use peer_mesh.Vpn.Allocator.Increment.{value-increment_ip}
use peer_mesh.Vpn.Allocator.Scan.{IsFirstFree, Allocates, allocate_ip-first}
use peer_mesh.Vpn.Allocator.Lifecycle.{
  Op, allocates, allocates_specific, releases, step, run, IsValid, history-IsValid,
}
use peer_mesh.Vpn.Allocator.Handout.{allocate-run_new, release-allocate_specific}
use peer_mesh.Vpn.Allocator.Inside.{IsV4Cidr, allocate_ip-inside}
use peer_mesh.Prelude.{◌+◌, ◌≤◌, arith}
use peer_mesh.Prelude.Bytes.{value}
use peer_mesh.Vpn.Allocator.Escape.{subnet24, allocate_ip-escapes}

abbrev host : ℕ → Ip
host n = 10 ∷ 0 ∷ 0 ∷ n ∷ []

abbrev subnet29 : Subnet
subnet29 = record { ip = host 0; mask = 255 ∷ 255 ∷ 255 ∷ 248 ∷ [] }

abbrev fresh : IpAllocator
fresh = record { subnet = subnet29; allocated = []; next_ip = host 1 }

-- After one allocation.
abbrev held : IpAllocator
held = record { subnet = subnet29; allocated = (host 1, true) ∷ []; next_ip = host 2 }

fresh_new : new_ip_allocator (some subnet29) ≡ ok fresh
unfolding allocator_runs
fresh_new = refl

allocate_run : allocate_ip fresh ≡ (ok (host 1), held)
unfolding allocator_runs
allocate_run = refl

available_run : available_count held ≡ pos 5
unfolding allocator_runs
available_run = refl

-- A /32 has a negative count.
available_single :
    available_count
      (record fresh { subnet = record { ip = host 0; mask = 255 ∷ 255 ∷ 255 ∷ 255 ∷ [] } })
    ≡ negsuc 0
unfolding allocator_runs
available_single = refl

held-IsValid : IsValid held
unfolding allocator_runs run step
held-IsValid = history-IsValid subnet29 fresh (allocates ∷ []) fresh_new

fresh-IsValid : IsValid fresh
unfolding run
fresh-IsValid = history-IsValid subnet29 fresh [] fresh_new

held_ip : is_allocated held (host 1) ≡ true
unfolding allocator_runs
held_ip = refl

allocate_ip-first_example :
    (ip : Option Ip) × IsFirstFree held (pos_part (total_ips held.subnet)) held.next_ip ip
    × Allocates held ip (allocate_ip held)
allocate_ip-first_example = allocate_ip-first held

history-IsValid_example :
    IsValid (run fresh (allocates ∷ releases (host 1) ∷ allocates_specific (host 6) ∷ []))
history-IsValid_example =
    history-IsValid subnet29 fresh
      (allocates ∷ releases (host 1) ∷ allocates_specific (host 6) ∷ []) fresh_new

-- Between the two allocations another address comes and goes.
abbrev others : List Op
others = allocates ∷ releases (host 2) ∷ []

second_run : (allocate_ip (run held others)).0 ≡ ok (host 3)
unfolding allocator_runs run step
second_run = refl

allocate-run_new_example : text (host 3) ≢ text (host 1)
unfolding allocator_runs
allocate-run_new_example =
    allocate-run_new held (host 1) others (host 3) held_ip (third_other, tt) second_run
  where
    third_other : text (host 2) ≢ text (host 1)
    third_other e = ground arith

release-allocate_specific_example :
    ((release_ip held (host 1)).0 ≡ ok tt)
    × (available_count (release_ip held (host 1)).1 ≡ available_count held +ℤ pos 1)
    × ((release_ip (release_ip held (host 1)).1 (host 1)).0 ≡ err not_allocated)
    × ((allocate_specific_ip (release_ip held (host 1)).1 (host 1)).0 ≡ ok tt)
    × ((jp : Ip)
        → is_allocated (allocate_specific_ip (release_ip held (host 1)).1 (host 1)).1 jp
          ≡ is_allocated held jp)
unfolding allocator_runs
release-allocate_specific_example =
    release-allocate_specific held (host 1) held-IsValid held_ip refl

value-increment_ip_example :
    value (increment_ip (10 ∷ 0 ∷ 255 ∷ 255 ∷ [])) ≡ (value (10 ∷ 0 ∷ 255 ∷ 255 ∷ []) + 1) % 256 ^ 4
value-increment_ip_example = value-increment_ip (10 ∷ 0 ∷ 255 ∷ 255 ∷ []) (omega arith)

-- Every address of 10.1.2.0/24 is free, and lies below the cursor.
abbrev at_end : IpAllocator
at_end = record { subnet = subnet24 10 1 2; allocated = []; next_ip = 10 ∷ 1 ∷ 2 ∷ 255 ∷ [] }

allocate_ip-escapes_example :
    ((allocate_ip at_end).0 ≡ ok (10 ∷ 1 ∷ 3 ∷ 0 ∷ []))
    × (subnet_contains at_end.subnet (10 ∷ 1 ∷ 3 ∷ 0 ∷ []) ≡ false)
unfolding allocator_runs
allocate_ip-escapes_example =
    allocate_ip-escapes 10 1 2 at_end (omega arith) (omega arith) (omega arith) refl refl refl

subnet29-IsV4Cidr : IsV4Cidr subnet29
unfolding allocator_runs
subnet29-IsV4Cidr = record {
  four = refl;
  mask_four = refl;
  bytes = ground arith;
  mask_bytes = ground arith;
  masked = (refl, (refl, (refl, (refl, tt))));
  ones = 29;
  is_mask = refl;
}

-- The address three steps on is free, so one of the next four is handed out.
allocate_ip-inside_example :
    (r : Ip) × ((allocate_ip held).0 ≡ ok r)
    × (subnet_contains subnet29 r ≡ true)
    × (value held.next_ip ≤ value r)
    × (value r ≤ value held.next_ip + 3)
unfolding allocator_runs
allocate_ip-inside_example =
    allocate_ip-inside held 3 subnet29-IsV4Cidr (ground arith) refl (omega arith) (omega arith) refl
