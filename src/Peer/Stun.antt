-- ===== src/Peer/Stun.antt =====
-- src/internal/peer/nat_traversal.go, its STUN messages: createSTUNRequest, parseSTUNResponse and
-- parseXORMappedAddress.
pub mod Response
use Prim.Native.Nat.{bit_xor}
use peer_mesh.Prelude.{
  ℕ, zero, suc, ◌+◌, ◌*◌, ◌/◌, ◌%◌, ◌^◌, Bool, true, false, ◌&&◌, Option, none, some, List, [], ◌∷◌,
  ◌++◌, length, get_or, get_elem?, slice, replicate, ltb, leb, ◌==◌, nat_eq, if◌then◌else◌, Outcome,
  returns, fails, panics,
}
use peer_mesh.Prelude.Outcomes.{◌>>=◌, asserted}
use peer_mesh.Net.{Ip}

-- net.UDPAddr
pub record UdpAddr : Type 0 where
  pub ip : Ip
  pub port : ℕ

pub data Error : Type 0 where
  response_too_short attribute_too_short address_not_found address_too_short : Error
  unexpected_type unsupported_family : ℕ → Error

-- binary.BigEndian.PutUint16 and PutUint32, the bytes that they write
abbrev pub put_uint16 : ℕ → List ℕ
put_uint16 n = (n / 256 % 256) ∷ (n % 256) ∷ []

abbrev pub put_uint32 : ℕ → List ℕ
put_uint32 n = put_uint16 (n / 65536) ++ put_uint16 (n % 65536)

unfoldable pub create_stun_request : List ℕ
create_stun_request =
    put_uint16 0x0001 ++ (put_uint16 0x0000 ++ (put_uint32 0x2112A442 ++ replicate 12 0))

-- binary.BigEndian.Uint16(data[i : i+2]); `none` is the panic of a slice out of range.
unfoldable pub read_uint16 : List ℕ → ℕ → Option ℕ
read_uint16 bytes i =
    if leb (i + 2) (length bytes)
    then some (get_or bytes i 0 * 256 + get_or bytes (i + 1) 0)
    else none

-- data[lo:hi]; `none` is the panic of a slice out of range, for one without spare capacity.
unfoldable pub sub_slice : List ℕ → ℕ → ℕ → Option (List ℕ)
sub_slice bytes lo hi =
    if leb lo hi && leb hi (length bytes) then some (slice bytes lo hi) else none

-- data[i] ^ 0x21
unfoldable pub xor_byte : List ℕ → ℕ → Outcome Error ℕ
xor_byte bytes i = do byte ← asserted (get_elem? bytes i); returns (bit_xor byte 0x21)

-- The four bytes at 4, each with the one byte 0x21.
unfoldable pub xor_address : List ℕ → Outcome Error Ip
unfolding xor_byte
xor_address bytes = do
  a ← xor_byte bytes 4
  b ← xor_byte bytes 5
  c ← xor_byte bytes 6
  d ← xor_byte bytes 7
  returns (a ∷ b ∷ c ∷ d ∷ [])

-- The port and the address of an IPv4 attribute.
unfoldable pub parse_ipv4_address : List ℕ → Outcome Error UdpAddr
unfolding xor_address
parse_ipv4_address bytes = do
  word ← asserted (read_uint16 bytes 2)
  ip ← xor_address bytes
  returns (record { ip = ip; port = bit_xor word 0x2112 })

unfoldable pub parse_xor_mapped_address : List ℕ → Outcome Error UdpAddr
unfolding parse_ipv4_address
parse_xor_mapped_address bytes = if ltb (length bytes) 8 then fails address_too_short else (do
  family ← asserted (get_elem? bytes 1)
  if family == 0x01 then parse_ipv4_address bytes else fails (unsupported_family family))

-- An attribute of type `type` and length `size` at `offset`, with the rest of the loop.
unfoldable pub parse_attribute : List ℕ → ℕ → ℕ → ℕ → Outcome Error UdpAddr → Outcome Error UdpAddr
unfolding sub_slice
parse_attribute bytes offset type size rest =
    if type == 0x0020
    then (if ltb (length bytes) (offset + 4 + size) then fails attribute_too_short else (do
      value ← asserted (sub_slice bytes (offset + 4) (offset + 4 + size))
      parse_xor_mapped_address value))
    else rest

-- The loop `for offset < len(data)-4`, with fuel; without fuel it panics.
unfoldable pub parse_attributes : ℕ → ℕ → List ℕ → Outcome Error UdpAddr
parse_attributes zero offset bytes = panics
parse_attributes (suc fuel) offset bytes = elim (ltb (offset + 4) (length bytes)) [
  | false ↦ fails address_not_found
  | true ↦ elim (read_uint16 bytes offset) [
    | none ↦ panics
    | some type ↦ elim (read_uint16 bytes (offset + 2)) [
      | none ↦ panics
      | some size ↦
          parse_attribute bytes offset type size (parse_attributes fuel (offset + (4 + size)) bytes)
    ]
  ]
]

unfoldable pub parse_stun_response : List ℕ → Outcome Error UdpAddr
parse_stun_response bytes =
    if ltb (length bytes) 20 then fails response_too_short else elim (read_uint16 bytes 0) [
      | none ↦ panics
      | some type ↦
          if type == 0x0101
          then parse_attributes (length bytes) 20 bytes
          else fails (unexpected_type type)
    ]

-- What a run of the functions above opens.
unfoldable pub stun_runs : ℕ
unfolding create_stun_request read_uint16 sub_slice xor_byte xor_address parse_ipv4_address
    parse_xor_mapped_address parse_attribute parse_attributes parse_stun_response
stun_runs = 0
