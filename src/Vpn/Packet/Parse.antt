-- ===== src/Vpn/Packet/Parse.antt =====
-- parsePacket and its two cases.
use peer_mesh.Prelude.{
  ℕ, ◌≤◌, ◌<◌, ◌≡◌, ◌↔◌, refl, ap, ◌∙◌, ◌⊎◌, inl, inr, List, ◌++◌, length, get_or, length-append,
  get_or-append, slice-append, arith, ok,
}
use mathlib.Core.List.{append_assoc}
use peer_mesh.Net.{Ip}
use peer_mesh.Vpn.Packet.{
  Packet, PacketType, ipv4, ipv6, packet_source, packet_dest, packet_type, ip_version,
  protocol_type, parse_packet,
}

-- What a parsed packet holds.
pub record Parsed (p : Packet) (source dest : Ip) (type : PacketType) : Type 0 where
  pub source_bytes : packet_source p ≡ source
  pub dest_bytes : packet_dest p ≡ dest
  pub kind : packet_type p ≡ type
  pub whole : p.size ≡ length p.bytes

-- The packets that the two cases build.
abbrev ipv4_packet : List ℕ → Packet
ipv4_packet bytes = record {
  bytes = bytes;
  size = length bytes;
  source = record { lo = 12; hi = 16 };
  dest = record { lo = 16; hi = 20 };
  type = protocol_type (get_or bytes 9 0) ipv4;
}

abbrev ipv6_packet : List ℕ → Packet
ipv6_packet bytes = record {
  bytes = bytes;
  size = length bytes;
  source = record { lo = 8; hi = 24 };
  dest = record { lo = 24; hi = 40 };
  type = protocol_type (get_or bytes 6 0) ipv6;
}

parse_packet_ipv4 :
    (bytes : List ℕ)
    → 20 ≤ length bytes
    → ip_version bytes ≡ 4
    → parse_packet bytes ≡ ok (ipv4_packet bytes)
unfolding parse_packet
parse_packet_ipv4 bytes h v = ground arith

parse_packet_ipv6 :
    (bytes : List ℕ)
    → 40 ≤ length bytes
    → ip_version bytes ≡ 6
    → parse_packet bytes ≡ ok (ipv6_packet bytes)
unfolding parse_packet
parse_packet_ipv6 bytes h v = ground arith

pub parse_packet-version6 :
    (bytes : List ℕ) (p : Packet)
    → ip_version bytes ≡ 6
    → parse_packet bytes ≡ ok p
    → p ≡ ipv6_packet bytes
unfolding parse_packet
parse_packet-version6 bytes p v e = ground arith

-- Long enough for its version.
abbrev pub Fits : List ℕ → Type 0
Fits bytes =
    ((ip_version bytes ≡ 4) × (20 ≤ length bytes)) ⊎ ((ip_version bytes ≡ 6) × (40 ≤ length bytes))

-- parsePacket accepts exactly the packets of version 4 with at least 20 bytes and of version 6 with
-- at least 40.
pub parse_packet-accepts :
    (bytes : List ℕ) → ((p : Packet) × (parse_packet bytes ≡ ok p)) ↔ Fits bytes
unfolding parse_packet
parse_packet-accepts bytes = (λ h. ground arith, fits)
  where
    fits : Fits bytes → (p : Packet) × (parse_packet bytes ≡ ok p)
    fits (inl (v, h)) = (ipv4_packet bytes, ground arith)
    fits (inr (v, h)) = (ipv6_packet bytes, ground arith)

ip_version-append :
    (head tail : List ℕ) → 0 < length head → ip_version (head ++ tail) ≡ ip_version head
unfolding ip_version
ip_version-append head tail h = rw (get_or-append head tail 0 0 h) refl

-- An IPv4 packet, twelve bytes of header, the addresses and the rest, parses to its addresses and
-- to the type that its protocol byte says.
pub parse_packet-ipv4 :
    (head source dest rest : List ℕ)
    → length head ≡ 12
    → ip_version head ≡ 4
    → length source ≡ 4
    → length dest ≡ 4
    → (p : Packet) × (parse_packet (head ++ (source ++ (dest ++ rest))) ≡ ok p)
      × Parsed p source dest (protocol_type (get_or head 9 0) ipv4)
unfolding packet_source packet_dest packet_type
parse_packet-ipv4 head source dest rest lh v ls ld =
    let bytes = head ++ (source ++ (dest ++ rest)) in
    (
      ipv4_packet bytes,
      parse_packet_ipv4 bytes
          (omega (
            arith,
            length-append head (source ++ (dest ++ rest)),
            length-append source (dest ++ rest),
            length-append dest rest,
          ))
          (ip_version-append head _ (omega arith) ∙ v),
      record {
        source_bytes = slice-append 12 16 head source (dest ++ rest) lh (omega arith);
        dest_bytes = rw (← append_assoc head source (dest ++ rest)) (
            slice-append 16 20 (head ++ source) dest rest (omega (arith, length-append head source))
              (omega arith));
        kind = ap (λ (b : ℕ). protocol_type b ipv4) (get_or-append head _ 9 0 (omega arith));
        whole = refl;
      },
    )

-- An IPv6 packet, eight bytes of header, the addresses and the rest, parses to its addresses and to
-- the type that its next-header byte says.
pub parse_packet-ipv6 :
    (head source dest rest : List ℕ)
    → length head ≡ 8
    → ip_version head ≡ 6
    → length source ≡ 16
    → length dest ≡ 16
    → (p : Packet) × (parse_packet (head ++ (source ++ (dest ++ rest))) ≡ ok p)
      × Parsed p source dest (protocol_type (get_or head 6 0) ipv6)
unfolding packet_source packet_dest packet_type
parse_packet-ipv6 head source dest rest lh v ls ld =
    let bytes = head ++ (source ++ (dest ++ rest)) in
    (
      ipv6_packet bytes,
      parse_packet_ipv6 bytes
          (omega (
            arith,
            length-append head (source ++ (dest ++ rest)),
            length-append source (dest ++ rest),
            length-append dest rest,
          ))
          (ip_version-append head _ (omega arith) ∙ v),
      record {
        source_bytes = slice-append 8 24 head source (dest ++ rest) lh (omega arith);
        dest_bytes = rw (← append_assoc head source (dest ++ rest)) (
            slice-append 24 40 (head ++ source) dest rest (omega (arith, length-append head source))
              (omega arith));
        kind = ap (λ (b : ℕ). protocol_type b ipv6) (get_or-append head _ 6 0 (omega arith));
        whole = refl;
      },
    )
