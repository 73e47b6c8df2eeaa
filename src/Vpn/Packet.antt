-- ===== src/Vpn/Packet.antt =====
-- src/internal/vpn/packet.go. A packet's addresses are slices of its data, so a write to the data
-- shows in them: an address is the place of its bytes.
pub mod Parse
pub mod Ttl
pub mod Checksum
use peer_mesh.Prelude.{
  ℕ, zero, suc, ◌+◌, ◌-◌, ◌*◌, ◌/◌, ◌%◌, ◌^◌, Bool, true, false, not, ◌&&◌, ◌||◌, Option, none,
  some, List, [], ◌∷◌, length, get_or, set, slice, replicate, ltb, leb, ◌==◌, nat_eq, if◌then◌else◌,
  Result, ok, err,
}
use peer_mesh.Prelude.Int.{ℤ, pos, negsuc, ltb_ℤ, pos_part, ◌≤ℤ◌}
use peer_mesh.Prelude.Assoc.{Assoc, lookup, insert}
use peer_mesh.Prelude.{Eq}
use peer_mesh.Net.{Ip, equal, net_runs}

pub data PacketType : Type 0 where
  unknown ipv4 ipv6 icmp tcp udp : PacketType

-- The number that the source's iota gives.
abbrev pub code : PacketType → ℕ
code unknown = 0
code ipv4 = 1
code ipv6 = 2
code icmp = 3
code tcp = 4
code udp = 5

-- The bytes from `lo` up to `hi` of the packet's data; a nil slice is the empty one.
pub record Span : Type 0 where
  pub lo : ℕ
  pub hi : ℕ

abbrev pub nil_span : Span
nil_span = record { lo = 0; hi = 0 }

pub record Packet : Type 0 where
  pub bytes : List ℕ
  pub size : ℕ
  pub source : Span
  pub dest : Span
  pub type : PacketType

pub data Error : Type 0 where
  packet_too_short ipv6_packet_too_short ipv4_packet_too_short : Error
  unsupported_version : ℕ → Error
  invalid_ttl : ℤ → Error
  handler_failed : ℕ → Error

abbrev pub read_span : Packet → Span → Ip
read_span p s = slice p.bytes s.lo s.hi

unfoldable pub packet_source : Packet → Ip
packet_source p = read_span p p.source

unfoldable pub packet_dest : Packet → Ip
packet_dest p = read_span p p.dest

unfoldable pub packet_type : Packet → PacketType
packet_type p = p.type

-- The protocol number of a header, with the type for a number that has none of its own.
unfoldable pub protocol_type : ℕ → PacketType → PacketType
protocol_type protocol other =
    if protocol == 1
    then icmp
    else if protocol == 6
    then tcp
    else if protocol == 17
    then udp
    else other

unfoldable pub parse_ipv4_packet : Packet → Result Error Packet
parse_ipv4_packet p =
    if ltb (length p.bytes) 20
    then err ipv4_packet_too_short
    else ok (record p {
      source = record { lo = 12; hi = 16 };
      dest = record { lo = 16; hi = 20 };
      type = protocol_type (get_or p.bytes 9 0) ipv4;
    })

unfoldable pub parse_ipv6_packet : Packet → Result Error Packet
parse_ipv6_packet p =
    if ltb (length p.bytes) 40
    then err ipv6_packet_too_short
    else ok (record p {
      source = record { lo = 8; hi = 24 };
      dest = record { lo = 24; hi = 40 };
      type = protocol_type (get_or p.bytes 6 0) ipv6;
    })

-- `(data[0] >> 4) & 0x0F` of a byte.
unfoldable pub ip_version : List ℕ → ℕ
ip_version bytes = get_or bytes 0 0 / 16 % 16

unfoldable pub parse_packet : List ℕ → Result Error Packet
unfolding parse_ipv4_packet parse_ipv6_packet
parse_packet bytes =
    if ltb (length bytes) 20
    then err packet_too_short
    else let packet : Packet = record {
      bytes = bytes;
      size = length bytes;
      source = nil_span;
      dest = nil_span;
      type = unknown;
    } in
      if ip_version bytes == 4
      then parse_ipv4_packet packet
      else if ip_version bytes == 6
      then parse_ipv6_packet packet
      else err (unsupported_version (ip_version bytes))

-- PacketHandler: the error that the handler returns, if any.
abbrev pub PacketHandler : Type 0
PacketHandler = Packet → Option Error

-- The map has the types' numbers for keys.
pub record PacketProcessor : Type 0 where
  pub handlers : Assoc ℕ PacketHandler
  pub buffer : List ℕ

unfoldable pub new_packet_processor : ℤ → PacketProcessor
new_packet_processor size = record {
  handlers = [];
  buffer = replicate (if ltb_ℤ (pos 0) size then pos_part size else 2048) 0;
}

unfoldable pub register_handler : PacketProcessor → PacketType → PacketHandler → PacketProcessor
register_handler p t handler = record p { handlers = insert (code t) handler p.handlers }

unfoldable pub handle_unknown_packet : Packet → Option Error
handle_unknown_packet packet = none

unfoldable pub dispatch : PacketProcessor → Packet → Option Error
dispatch p packet = elim (lookup (code packet.type) p.handlers) [
  | none ↦ handle_unknown_packet packet
  | some handler ↦ handler packet
]

unfoldable pub process_packet : PacketProcessor → List ℕ → Option Error
process_packet p bytes = elim (parse_packet bytes) [
  | err e ↦ some e
  | ok packet ↦ dispatch p packet
]

unfoldable pub is_local_traffic : Packet → Ip → Bool
is_local_traffic p local_ip = equal (packet_dest p) local_ip

-- net.IPv4bcast is in its 16-byte form.
abbrev pub ipv4_bcast : Ip
ipv4_bcast = 0 ∷ 0 ∷ 0 ∷ 0 ∷ 0 ∷ 0 ∷ 0 ∷ 0 ∷ 0 ∷ 0 ∷ 255 ∷ 255 ∷ 255 ∷ 255 ∷ 255 ∷ 255 ∷ []

unfoldable pub is_broadcast : Packet → Bool
is_broadcast p = if length (packet_dest p) == 4 then equal (packet_dest p) ipv4_bcast else false

unfoldable pub is_multicast : Packet → Bool
is_multicast p =
    if length (packet_dest p) == 4
    then leb 224 (get_or (packet_dest p) 0 0) && leb (get_or (packet_dest p) 0 0) 239
    else if length (packet_dest p) == 16
    then get_or (packet_dest p) 0 0 == 255
    else false

unfoldable pub get_ttl : Packet → Result Error ℕ
get_ttl p = if ltb (length p.bytes) 9 then err packet_too_short else ok (get_or p.bytes 8 0)

-- `byte(ttl)` of an int that is not negative.
unfoldable pub set_ttl : Packet → ℤ → Result Error Packet
set_ttl p ttl =
    if ltb (length p.bytes) 9
    then err packet_too_short
    else if ltb_ℤ ttl (pos 0) || ltb_ℤ (pos 255) ttl
    then err (invalid_ttl ttl)
    else ok (record p { bytes = set p.bytes 8 (pos_part ttl % 256) })

-- binary.BigEndian.Uint16(data[i : i+2])
abbrev pub uint16_at : List ℕ → ℕ → ℕ
uint16_at bytes i = get_or bytes i 0 * 256 + get_or bytes (i + 1) 0

-- The loop `for i := …; i < 20; i += 2` with the rounds left, on a uint32.
unfoldable pub sum_words : ℕ → ℕ → ℕ → List ℕ → ℕ
sum_words zero i sum bytes = sum
sum_words (suc rounds) i sum bytes =
    sum_words rounds (i + 2) ((sum + uint16_at bytes i) % 2 ^ 32) bytes

-- The loop `for sum > 0xffff`, with fuel.
unfoldable pub fold_carry : ℕ → ℕ → ℕ
fold_carry zero sum = sum
fold_carry (suc fuel) sum =
    let rest = fold_carry fuel (sum % 65536 + sum / 65536) in if ltb 65535 sum then rest else sum

abbrev pub fold_fuel : ℕ
fold_fuel = 3

-- The packet with the checksum bytes cleared, and the checksum: ^sum as a uint16.
unfoldable pub calculate_checksum : Packet → Result Error ℕ × Packet
calculate_checksum p =
    if ltb (length p.bytes) 20
    then (err packet_too_short, p)
    else let cleared = set (set p.bytes 10 0) 11 0 in
      let sum = fold_carry fold_fuel (sum_words 10 0 0 cleared) in
      (ok ((2 ^ 32 - 1 - sum) % 65536), record p { bytes = cleared })

-- What a run of the functions above opens.
unfoldable pub packet_runs : ℕ
unfolding net_runs lookup insert packet_source packet_dest packet_type protocol_type ip_version
    parse_packet register_handler handle_unknown_packet dispatch process_packet is_broadcast
    is_multicast get_ttl set_ttl sum_words fold_carry calculate_checksum
packet_runs = 0
