-- ===== src/Vpn/Packet/Ttl.antt =====
-- GetTTL and SetTTL.
use peer_mesh.Prelude.{
  ℕ, zero, suc, ◌-◌, ◌%◌, ◌≤◌, ◌<◌, ◌≡◌, refl, ap, sym, ◌∙◌, List, [], ◌∷◌, length, get_or, set,
  slice, take, drop, length-set, get_or-set_self, get_or-set_ne, if_cases, nat_beq_iff, ◌==◌,
  nat_eq, ◌↔◌, arith, ok, if◌then◌else◌,
}
use peer_mesh.Prelude.Int.{ℤ, pos, pos_part, ◌≤ℤ◌}
use peer_mesh.Vpn.Packet.Parse.{parse_packet-version6}
use peer_mesh.Vpn.Packet.{
  Packet, packet_source, packet_dest, get_ttl, set_ttl, parse_packet, ip_version,
}

-- A write outside a slice does not show in it.
drop-set : (lo i : ℕ) (v : ℕ) (xs : List ℕ) → i < lo → drop lo (set xs i v) ≡ drop lo xs
drop-set zero i v xs h = absurd (omega arith)
drop-set (suc lo) i v [] h = refl
drop-set (suc lo) zero v (x ∷ xs) h = refl
drop-set (suc lo) (suc i) v (x ∷ xs) h = drop-set lo i v xs (omega arith)

pub slice-set_below :
    (lo hi i v : ℕ) (xs : List ℕ) → i < lo → slice (set xs i v) lo hi ≡ slice xs lo hi
slice-set_below lo hi i v xs h = rw (drop-set lo i v xs h) refl

-- On a packet of nine bytes or more, SetTTL stores each TTL up to 255 where GetTTL reads it, and
-- changes neither the length nor another byte.
pub get_ttl-set_ttl :
    (p : Packet) (ttl : ℕ)
    → 9 ≤ length p.bytes
    → ttl < 256
    → (q : Packet) × (set_ttl p (pos ttl) ≡ ok q)
      × (get_ttl q ≡ ok ttl)
      × (length q.bytes ≡ length p.bytes)
      × ((i : ℕ) → get_or q.bytes i 0 ≡ (if i == 8 then ttl else get_or p.bytes i 0))
unfolding set_ttl get_ttl
get_ttl-set_ttl p ttl h t =
    let e : ttl % 256 ≡ ttl = omega arith in
    (
      record p { bytes = set p.bytes 8 ttl },
      ground (arith, e),
      ground (arith, get_or-set_self p.bytes 8 ttl 0, length-set p.bytes 8 ttl),
      length-set p.bytes 8 ttl,
      λ i.
          if_cases (λ (x : ℕ). get_or (set p.bytes 8 ttl) i 0 ≡ x) (i == 8)
            (λ b. rw ((nat_beq_iff i 8).0 b) (get_or-set_self p.bytes 8 ttl 0 h))
            (λ b. get_or-set_ne p.bytes 8 i ttl 0 (λ c. cc (b, (nat_beq_iff i 8).1 (sym c)))),
    )

-- SetTTL succeeds exactly on a packet of nine bytes or more with a TTL from 0 to 255.
pub set_ttl-accepts :
    (p : Packet) (ttl : ℤ)
    → ((q : Packet) × (set_ttl p ttl ≡ ok q))
      ↔ ((9 ≤ length p.bytes) × (pos 0 ≤ℤ ttl) × (ttl ≤ℤ pos 255))
unfolding set_ttl
set_ttl-accepts p ttl = (
  λ h. ground arith,
  λ h. (record p { bytes = set p.bytes 8 (pos_part ttl % 256) }, ground arith),
)

get_or-take : (n : ℕ) (xs : List ℕ) → 0 < n → get_or (take n xs) 0 0 ≡ get_or xs 0 0
get_or-take zero xs h = absurd (omega arith)
get_or-take (suc n) [] h = refl
get_or-take (suc n) (x ∷ xs) h = refl

get_or-drop : (i : ℕ) (xs : List ℕ) → get_or (drop i xs) 0 0 ≡ get_or xs i 0
get_or-drop zero xs = refl
get_or-drop (suc i) [] = refl
get_or-drop (suc i) (x ∷ xs) = get_or-drop i xs

slice-set_head :
    (lo hi i v : ℕ) (xs : List ℕ)
    → lo ≡ i
    → i < hi
    → i < length xs
    → get_or (slice (set xs i v) lo hi) 0 0 ≡ v
slice-set_head lo hi i v xs e h k = rw e (
    get_or-take (hi - i) (drop i (set xs i v)) (omega arith)
    ∙ get_or-drop i (set xs i v)
    ∙ get_or-set_self xs i v 0 k)

set_ttl-ok :
    (p q : Packet) (ttl : ℕ)
    → set_ttl p (pos ttl) ≡ ok q
    → (8 < length p.bytes) × (ttl < 256) × (record p { bytes = set p.bytes 8 ttl } ≡ q)
unfolding set_ttl
set_ttl-ok p q ttl h = ground arith

-- A SetTTL that succeeds leaves alone the addresses that lie behind byte 8, as those of an IPv4
-- packet do.
pub set_ttl-addresses :
    (p q : Packet) (ttl : ℕ)
    → set_ttl p (pos ttl) ≡ ok q
    → 8 < p.source.lo
    → 8 < p.dest.lo
    → (packet_source q ≡ packet_source p) × (packet_dest q ≡ packet_dest p)
unfolding packet_source packet_dest
set_ttl-addresses p q ttl h k l = rw (← (set_ttl-ok p q ttl h).2) (
  slice-set_below p.source.lo p.source.hi 8 ttl p.bytes k,
  slice-set_below p.dest.lo p.dest.hi 8 ttl p.bytes l,
)

-- A SetTTL that succeeds on a parsed IPv6 packet makes the TTL the first byte of the packet's source
-- address.
pub set_ttl-ipv6_source :
    (bytes : List ℕ) (p q : Packet) (ttl : ℕ)
    → ip_version bytes ≡ 6
    → parse_packet bytes ≡ ok p
    → set_ttl p (pos ttl) ≡ ok q
    → get_or (packet_source q) 0 0 ≡ ttl
unfolding packet_source
set_ttl-ipv6_source bytes p q ttl v e h =
    let ok_at = set_ttl-ok p q ttl h in
    let same = parse_packet-version6 bytes p v e in
    rw (← ok_at.2) (
      slice-set_head p.source.lo p.source.hi 8 ttl p.bytes (ap (λ (r : Packet). r.source.lo) same)
        (rw same (omega arith)) ok_at.0)
