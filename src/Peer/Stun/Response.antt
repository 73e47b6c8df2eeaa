-- ===== src/Peer/Stun/Response.antt =====
-- parseSTUNResponse never panics, and what it makes of a server's answer.
use Prim.Native.Nat.{bit_xor}
use peer_mesh.Prelude.{
  ℕ, zero, suc, ◌+◌, ◌*◌, ◌/◌, ◌%◌, ◌≤◌, ◌<◌, ◌≡◌, ◌≢◌, refl, ◌∙◌, true, not, some, List, [], ◌∷◌,
  ◌++◌, length, get_or, slice, arith, ◌==◌, nat_eq, nat_beq_iff, Outcome, returns, fails, panics,
  get_elem?-in_range, length-append, get_or-append, get_or-append_right, slice-append,
}
use peer_mesh.Prelude.Bytes.{all_below, all_below_sound}
use mathlib.Core.List.{append-nil, append_assoc}
use native.Mathlib.Decide.{dec_lt}
use peer_mesh.Peer.Stun.{
  UdpAddr, Error, put_uint16, read_uint16, sub_slice, xor_byte, xor_address, parse_ipv4_address,
  parse_xor_mapped_address, parse_attribute, parse_attributes, parse_stun_response,
  address_not_found,
}

module _ (bytes : List ℕ) where
  read_uint16-in_range :
      (i : ℕ)
      → i + 2 ≤ length bytes
      → read_uint16 bytes i ≡ some (get_or bytes i 0 * 256 + get_or bytes (i + 1) 0)
  unfolding read_uint16
  read_uint16-in_range i h = ground arith

  xor_byte-in_range :
      (i : ℕ) → i < length bytes → xor_byte bytes i ≡ returns (bit_xor (get_or bytes i 0) 0x21)
  unfolding xor_byte
  xor_byte-in_range i h = rw (get_elem?-in_range bytes i 0 h) refl

  xor_address-in_range :
      8 ≤ length bytes
      → xor_address bytes
        ≡ returns (
            bit_xor (get_or bytes 4 0) 0x21
            ∷ bit_xor (get_or bytes 5 0) 0x21
            ∷ bit_xor (get_or bytes 6 0) 0x21
            ∷ bit_xor (get_or bytes 7 0) 0x21
            ∷ [])
  unfolding xor_address
  xor_address-in_range h =
      rw
        (
          xor_byte-in_range 4 (omega arith),
          xor_byte-in_range 5 (omega arith),
          xor_byte-in_range 6 (omega arith),
          xor_byte-in_range 7 (omega arith),
        )
        refl

  parse_ipv4-safe : 8 ≤ length bytes → parse_ipv4_address bytes ≢ panics
  unfolding parse_ipv4_address
  parse_ipv4-safe h = rw (read_uint16-in_range 2 (omega arith), xor_address-in_range h) (λ p. cc)

  parse_xor-safe : parse_xor_mapped_address bytes ≢ panics
  unfolding parse_xor_mapped_address
  parse_xor-safe = elim (dec_lt (length bytes) 8) [
    | yes short ↦ ground arith
    | no long ↦
        rw (get_elem?-in_range bytes 1 0 (omega arith))
          (ground (arith, parse_ipv4-safe (omega arith)))
  ]

sub_slice-in_range :
    (bytes : List ℕ) (lo hi : ℕ)
    → lo ≤ hi
    → hi ≤ length bytes
    → sub_slice bytes lo hi ≡ some (slice bytes lo hi)
unfolding sub_slice
sub_slice-in_range bytes lo hi h k = ground arith

parse_attribute-safe :
    (bytes : List ℕ) (offset type size : ℕ) (rest : Outcome Error UdpAddr)
    → rest ≢ panics
    → parse_attribute bytes offset type size rest ≢ panics
unfolding parse_attribute
parse_attribute-safe bytes offset type size rest h =
    elim (dec_lt (length bytes) (offset + 4 + size)) [
      | yes short ↦ ground arith
      | no inside ↦
          rw (sub_slice-in_range bytes (offset + 4) (offset + 4 + size) (omega arith) (omega arith))
            (ground (arith, parse_xor-safe (slice bytes (offset + 4) (offset + 4 + size))))
    ]

abbrev word : List ℕ → ℕ → ℕ
word bytes i = get_or bytes i 0 * 256 + get_or bytes (i + 1) 0

-- A round of the loop inside the message, and its end.
parse_attributes_step :
    (fuel offset : ℕ) (bytes : List ℕ)
    → offset + 4 < length bytes
    → parse_attributes (suc fuel) offset bytes
      ≡ parse_attribute bytes offset
          (word bytes offset)
          (word bytes (offset + 2))
          (parse_attributes fuel (offset + (4 + word bytes (offset + 2))) bytes)
unfolding parse_attributes
parse_attributes_step fuel offset bytes h =
    ground (arith, read_uint16-in_range bytes offset, read_uint16-in_range bytes (offset + 2))

parse_attributes_end :
    (fuel offset : ℕ) (bytes : List ℕ)
    → length bytes ≤ offset + 4
    → parse_attributes (suc fuel) offset bytes ≡ fails address_not_found
unfolding parse_attributes
parse_attributes_end fuel offset bytes h = ground arith

-- Each round moves on by four bytes or more.
parse_attributes-safe :
    (fuel offset : ℕ) (bytes : List ℕ)
    → 0 < fuel
    → length bytes ≤ offset + 4 * fuel
    → parse_attributes fuel offset bytes ≢ panics
parse_attributes-safe zero offset bytes z h = absurd (omega arith)
parse_attributes-safe (suc fuel) offset bytes z h = elim (dec_lt (offset + 4) (length bytes)) [
  | no out ↦ rw (parse_attributes_end fuel offset bytes (omega arith)) (λ p. cc)
  | yes lt ↦ rw (parse_attributes_step fuel offset bytes lt) (
      parse_attribute-safe bytes offset _ _ _ (
        parse_attributes-safe fuel (offset + (4 + word bytes (offset + 2))) bytes (omega arith)
          (omega arith)))
]

-- Whatever the bytes are, parseSTUNResponse returns an address or an error: no slice is out of
-- range, and the loop ends.
pub parse_stun_response-safe : (bytes : List ℕ) → parse_stun_response bytes ≢ panics
unfolding parse_stun_response
parse_stun_response-safe bytes =
    ground (arith, read_uint16-in_range bytes 0, parse_attributes-safe (length bytes) 20 bytes)

-- RFC 5389: an attribute, and a XOR-MAPPED-ADDRESS value for IPv4, whose port and address are
-- combined with the magic cookie 0x2112A442.
abbrev pub attribute : ℕ → List ℕ → List ℕ
attribute type value = put_uint16 type ++ (put_uint16 (length value) ++ value)

abbrev pub xor_mapped_address : ℕ → ℕ → ℕ → ℕ → ℕ → List ℕ
xor_mapped_address a b c d port =
    0
    ∷ 1
    ∷ (bit_xor port 0x2112 / 256)
    ∷ (bit_xor port 0x2112 % 256)
    ∷ bit_xor a 0x21
    ∷ bit_xor b 0x12
    ∷ bit_xor c 0xA4
    ∷ bit_xor d 0x42
    ∷ []

port_table : all_below 65536 (λ y. bit_xor (bit_xor y 0x2112) 0x2112 == y) ≡ true
unfolding all_below
port_table = refl

port_decodes : (port : ℕ) → port < 65536 → bit_xor (bit_xor port 0x2112) 0x2112 ≡ port
port_decodes port h =
    (nat_beq_iff _ port).0
      (all_below_sound 65536 (λ y. bit_xor (bit_xor y 0x2112) 0x2112 == y) port port_table h)

first_byte : (a : ℕ) → a < 256 → bit_xor (bit_xor a 0x21) 0x21 ≡ a
first_byte a h =
    (nat_beq_iff _ a).0 (all_below_sound 256 (λ y. bit_xor (bit_xor y 0x21) 0x21 == y) a table h)
  where
    table : all_below 256 (λ y. bit_xor (bit_xor y 0x21) 0x21 == y) ≡ true
    table = unfold all_below in refl

second_byte : (b : ℕ) → b < 256 → bit_xor (bit_xor b 0x12) 0x21 ≢ b
second_byte b h e = cc (
  all_below_sound 256 (λ y. not (bit_xor (bit_xor y 0x12) 0x21 == y)) b table h,
  (nat_beq_iff _ b).1 e,
)
  where
    table : all_below 256 (λ y. not (bit_xor (bit_xor y 0x12) 0x21 == y)) ≡ true
    table = unfold all_below in refl

-- parseXORMappedAddress on a value that a server encodes by RFC 5389 for a.b.c.d:port.
parse_xor-encoded :
    (a b c d port : ℕ)
    → port < 65536
    → parse_xor_mapped_address (xor_mapped_address a b c d port)
      ≡ returns (record {
        ip =
            bit_xor (bit_xor a 0x21) 0x21
            ∷ bit_xor (bit_xor b 0x12) 0x21
            ∷ bit_xor (bit_xor c 0xA4) 0x21
            ∷ bit_xor (bit_xor d 0x42) 0x21
            ∷ [];
        port = port;
      })
unfolding parse_xor_mapped_address parse_ipv4_address xor_address xor_byte read_uint16
parse_xor-encoded a b c d port h =
    let e : bit_xor port 0x2112 / 256 * 256 + bit_xor port 0x2112 % 256 ≡ bit_xor port 0x2112 =
      omega arith in
    rw (e, port_decodes port h) refl

parse_attribute-found :
    (bytes value : List ℕ) (offset : ℕ) (rest : Outcome Error UdpAddr)
    → offset + 4 + length value ≤ length bytes
    → slice bytes (offset + 4) (offset + 4 + length value) ≡ value
    → parse_attribute bytes offset 0x0020 (length value) rest ≡ parse_xor_mapped_address value
unfolding parse_attribute
parse_attribute-found bytes value offset rest h e =
    rw (sub_slice-in_range bytes (offset + 4) (offset + 4 + length value) (omega arith) h, e)
      (ground arith)

parse_stun_response_lem :
    (bytes : List ℕ)
    → 20 ≤ length bytes
    → word bytes 0 ≡ 0x0101
    → parse_stun_response bytes ≡ parse_attributes (length bytes) 20 bytes
unfolding parse_stun_response
parse_stun_response_lem bytes h e = ground (arith, read_uint16-in_range bytes 0)

-- The whole message, its one attribute last.
parse_single :
    (header value : List ℕ)
    → length header ≡ 20
    → word header 0 ≡ 0x0101
    → 0 < length value
    → length value < 256
    → parse_stun_response (header ++ attribute 0x0020 value) ≡ parse_xor_mapped_address value
parse_single header value l h pos small =
    rw
      (
        parse_stun_response_lem bytes (omega (arith, len)) type,
        len,
        parse_attributes_step (23 + length value) 20 bytes (omega (arith, len)),
        kind,
        size,
      )
      (parse_attribute-found bytes value 20 _ (omega (arith, len)) inside)
  where
    bytes : List ℕ
    bytes = header ++ attribute 0x0020 value

    len : length bytes ≡ suc (23 + length value)
    len = omega (arith, length-append header (attribute 0x0020 value))

    type : word bytes 0 ≡ 0x0101
    type = rw (get_or-append header _ 0 0 (omega arith), get_or-append header _ 1 0 (omega arith)) h

    kind : word bytes 20 ≡ 0x0020
    kind =
        rw
          (
            get_or-append_right header _ 0 20 0 (omega arith),
            get_or-append_right header _ 1 21 0 (omega arith),
          )
          refl

    size : word bytes (20 + 2) ≡ length value
    size =
        rw
          (
            get_or-append_right header _ 2 22 0 (omega arith),
            get_or-append_right header _ 3 23 0 (omega arith),
          )
          (omega arith)

    start : List ℕ
    start = put_uint16 0x0020 ++ put_uint16 (length value)

    split : bytes ≡ (header ++ start) ++ (value ++ [])
    split = simp (append-nil, append_assoc)

    inside : slice bytes (20 + 4) (20 + 4 + length value) ≡ value
    inside = rw split (
        slice-append 24 (24 + length value) (header ++ start) value []
          (omega (arith, length-append header start)) refl)

-- Of a server's answer that holds the client's address a.b.c.d and port alone, after a header of 20
-- bytes, parseSTUNResponse returns the port and the first byte as they are, and the second byte
-- wrong, whatever the address is.
pub parse_stun_response-misreads :
    (header : List ℕ) (a b c d port : ℕ)
    → length header ≡ 20
    → get_or header 0 0 ≡ 1
    → get_or header 1 0 ≡ 1
    → a < 256
    → b < 256
    → port < 65536
    → (addr : UdpAddr) × (parse_stun_response
          (header ++ attribute 0x0020 (xor_mapped_address a b c d port))
        ≡ returns addr)
      × (addr.port ≡ port)
      × (get_or addr.ip 0 0 ≡ a)
      × (get_or addr.ip 1 0 ≢ b)
parse_stun_response-misreads header a b c d port l h0 h1 ha hb hp = (
  record {
    ip =
        bit_xor (bit_xor a 0x21) 0x21
        ∷ bit_xor (bit_xor b 0x12) 0x21
        ∷ bit_xor (bit_xor c 0xA4) 0x21
        ∷ bit_xor (bit_xor d 0x42) 0x21
        ∷ [];
    port = port;
  },
  parse_single header (xor_mapped_address a b c d port) l (omega arith) (omega arith) (omega arith)
      ∙ parse_xor-encoded a b c d port hp,
  refl,
  first_byte a ha,
  second_byte b hb,
)
