-- ===== src/Tests/Packet.antt =====
-- src/internal/vpn/packet.go on an IPv4 and an IPv6 header.
use peer_mesh.Prelude.{
  ℕ, ◌/◌, ◌%◌, ◌≤◌, ◌≡◌, ◌↔◌, refl, some, List, [], ◌∷◌, ◌++◌, length, get_or, replicate, set,
  arith, ok, list_eq, ◌==◌, nat_eq, if◌then◌else◌,
}
use peer_mesh.Prelude.Int.{pos}
use peer_mesh.Vpn.Packet.{
  Packet, ipv4, ipv6, udp, tcp, protocol_type, parse_packet, packet_source, get_ttl, set_ttl,
  sum_words, fold_carry, fold_fuel, calculate_checksum, new_packet_processor, register_handler,
  process_packet, handler_failed, packet_runs,
}
use peer_mesh.Vpn.Packet.Parse.{
  Parsed, Fits, parse_packet-ipv4, parse_packet-ipv6, parse_packet-accepts,
}
use peer_mesh.Vpn.Packet.Ttl.{get_ttl-set_ttl, set_ttl-ipv6_source}
use peer_mesh.Vpn.Packet.Checksum.{with_checksum, fold_carry-ends, checksum_verifies}

-- The header of RFC 1071's usual example, its checksum field not yet filled in.
abbrev head4 : List ℕ
head4 = 0x45 ∷ 0 ∷ 0 ∷ 0x73 ∷ 0 ∷ 0 ∷ 0x40 ∷ 0 ∷ 0x40 ∷ 0x11 ∷ 0 ∷ 0 ∷ []

abbrev source4 : List ℕ
source4 = 192 ∷ 168 ∷ 0 ∷ 1 ∷ []

abbrev dest4 : List ℕ
dest4 = 192 ∷ 168 ∷ 0 ∷ 199 ∷ []

abbrev bytes4 : List ℕ
bytes4 = head4 ++ (source4 ++ (dest4 ++ []))

abbrev packet4 : Packet
packet4 = record {
  bytes = bytes4;
  size = 20;
  source = record { lo = 12; hi = 16 };
  dest = record { lo = 16; hi = 20 };
  type = udp;
}

abbrev head6 : List ℕ
head6 = 0x60 ∷ 0 ∷ 0 ∷ 0 ∷ 0 ∷ 0 ∷ 6 ∷ 64 ∷ []

abbrev address6 : List ℕ
address6 = 0xfe ∷ 0x80 ∷ replicate 13 0 ++ 1 ∷ []

abbrev bytes6 : List ℕ
bytes6 = head6 ++ (address6 ++ (address6 ++ []))

abbrev packet6 : Packet
packet6 = record {
  bytes = bytes6;
  size = 40;
  source = record { lo = 8; hi = 24 };
  dest = record { lo = 24; hi = 40 };
  type = tcp;
}

parse4_run : parse_packet bytes4 ≡ ok packet4
unfolding packet_runs
parse4_run = refl

parse6_run : parse_packet bytes6 ≡ ok packet6
unfolding packet_runs
parse6_run = refl

checksum_run : (calculate_checksum packet4).0 ≡ ok 0xb861
unfolding packet_runs
checksum_run = refl

-- The handler of a packet's type is called, and its error comes back.
dispatch_run :
    process_packet
      (register_handler (new_packet_processor (pos 2048)) udp (λ p. some (handler_failed 7)))
      bytes4
    ≡ some (handler_failed 7)
unfolding packet_runs new_packet_processor
dispatch_run = refl

parse_packet-ipv4_example :
    (p : Packet) × (parse_packet bytes4 ≡ ok p) × Parsed p source4 dest4 (protocol_type 0x11 ipv4)
unfolding packet_runs
parse_packet-ipv4_example = parse_packet-ipv4 head4 source4 dest4 [] refl refl refl refl

parse_packet-ipv6_example :
    (p : Packet) × (parse_packet bytes6 ≡ ok p) × Parsed p address6 address6 (protocol_type 6 ipv6)
unfolding packet_runs
parse_packet-ipv6_example = parse_packet-ipv6 head6 address6 address6 [] refl refl refl refl

parse_packet-accepts_example : ((p : Packet) × (parse_packet bytes4 ≡ ok p)) ↔ Fits bytes4
parse_packet-accepts_example = parse_packet-accepts bytes4

get_ttl-set_ttl_example :
    (q : Packet) × (set_ttl packet4 (pos 63) ≡ ok q)
    × (get_ttl q ≡ ok 63)
    × (length q.bytes ≡ 20)
    × ((i : ℕ) → get_or q.bytes i 0 ≡ (if i == 8 then 63 else get_or bytes4 i 0))
get_ttl-set_ttl_example = get_ttl-set_ttl packet4 63 (omega arith) (omega arith)

abbrev lowered4 : Packet
lowered4 = record packet4 { bytes = set bytes4 8 63 }

abbrev lowered6 : Packet
lowered6 = record packet6 { bytes = set bytes6 8 63 }

set_ttl-ipv6_source_example : get_or (packet_source lowered6) 0 0 ≡ 63
unfolding packet_runs
set_ttl-ipv6_source_example = set_ttl-ipv6_source bytes6 packet6 lowered6 63 refl parse6_run refl

fold_carry-ends_example :
    (fold_carry fold_fuel 0xffff_ffff ≤ 65535)
    × (fold_carry fold_fuel 0xffff_ffff % 65535 ≡ 0xffff_ffff % 65535)
fold_carry-ends_example = fold_carry-ends 0xffff_ffff (omega arith)

abbrev cleared4 : Packet
cleared4 = record packet4 { bytes = bytes4 }

checksum_verifies_example :
    fold_carry fold_fuel (sum_words 10 0 0 (with_checksum bytes4 (0xb861 / 256) (0xb861 % 256)))
    ≡ 65535
unfolding packet_runs
checksum_verifies_example = checksum_verifies packet4 cleared4 0xb861 (omega arith) refl
