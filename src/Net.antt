-- ===== src/Net.antt =====
-- The parts of Go's package net that the program computes with: IP addresses as byte slices, masks
-- and subnets. The package is the language's standard library, so it has no file in the repository.
pub mod Equality
use Prim.Native.Nat.{bit_and, bit_or}
use peer_mesh.Prelude.{
  ℕ, zero, suc, ◌+◌, ◌-◌, ◌*◌, ◌%◌, ◌<◌, ◌≡◌, Bool, true, false, ◌&&◌, Option, none, some, List, [],
  ◌∷◌, ◌++◌, length, take, drop, get_or, replicate, ltb, ◌==◌, list_beq, list_eq, nat_eq,
  if◌then◌else◌,
}

abbrev pub Ip : Type 0
Ip = List ℕ

-- net.IPNet
pub record Subnet : Type 0 where
  pub ip : Ip
  pub mask : List ℕ

unfoldable pub v4_in_v6_prefix : List ℕ
v4_in_v6_prefix = 0 ∷ 0 ∷ 0 ∷ 0 ∷ 0 ∷ 0 ∷ 0 ∷ 0 ∷ 0 ∷ 0 ∷ 255 ∷ 255 ∷ []

-- Whether 16 bytes hold an IPv4 address, in their last four.
unfoldable pub is_v4_mapped : Ip → Bool
unfolding v4_in_v6_prefix list_beq
is_v4_mapped ip = take 12 ip == v4_in_v6_prefix

unfoldable pub low_four : Ip → Ip
low_four ip = drop 12 ip

-- IP.To4
unfoldable pub to4 : Ip → Option Ip
to4 ip =
    if length ip == 4
    then some ip
    else if (length ip == 16) && is_v4_mapped ip
    then some (low_four ip)
    else none

-- IP.Equal
unfoldable pub equal : Ip → Ip → Bool
equal a b =
    if length a == length b
    then a == b
    else if (length a == 4) && (length b == 16)
    then is_v4_mapped b && (a == low_four b)
    else if (length a == 16) && (length b == 4)
    then is_v4_mapped a && (low_four a == b)
    else false

-- What IP.String tells apart: one text for the two forms of an IPv4 address, and for no two others.
unfoldable pub text : Ip → List ℕ
unfolding to4
text ip = elim (to4 ip) [ none ↦ ip | some v4 ↦ v4 ]

-- ParseIP of a text that IP.String made: the 16-byte form, or nil.
unfoldable pub parse_text : List ℕ → Option Ip
unfolding v4_in_v6_prefix
parse_text t =
    if length t == 4 then some (v4_in_v6_prefix ++ t) else if length t == 16 then some t else none

-- The leading ones of a byte, most significant first, if only zeros follow them.
abbrev pub byte_ones : ℕ → Option ℕ
byte_ones b =
    if b == 0
    then some 0
    else if b == 128
    then some 1
    else if b == 192
    then some 2
    else if b == 224
    then some 3
    else if b == 240
    then some 4
    else if b == 248
    then some 5
    else if b == 252
    then some 6
    else if b == 254
    then some 7
    else none

abbrev pub all_zero : List ℕ → Bool
all_zero [] = true
all_zero (b ∷ bs) = (b == 0) && all_zero bs

-- simpleMaskLength; `none` is its -1
unfoldable pub simple_mask_length : List ℕ → Option ℕ
simple_mask_length [] = some 0
simple_mask_length (b ∷ bs) =
    let rest = simple_mask_length bs in
    if b == 255
    then elim rest [ none ↦ none | some n ↦ some (8 + n) ]
    else if all_zero bs
    then byte_ones b
    else none

-- IPMask.Size: the ones and the bits
unfoldable pub mask_size : List ℕ → ℕ × ℕ
unfolding simple_mask_length
mask_size mask = elim (simple_mask_length mask) [
  | none ↦ (0, 0)
  | some ones ↦ (ones, length mask * 8)
]

-- networkNumberAndMask; `none` is its nil, nil
unfoldable pub network_number_and_mask : Subnet → Option (Ip × List ℕ)
unfolding to4
network_number_and_mask n =
    let ip : Ip = elim (to4 n.ip) [ some v4 ↦ v4 | none ↦ n.ip ] in
    if (length ip == 4) && (length n.mask == 4)
    then some (ip, n.mask)
    else if (length ip == 4) && (length n.mask == 16)
    then some (ip, drop 12 n.mask)
    else if (length ip == 16) && (length n.mask == 16)
    then some (ip, n.mask)
    else none

unfoldable pub same_network : List ℕ → List ℕ → List ℕ → Bool
same_network [] nn ip = true
same_network (m ∷ ms) [] ip = true
same_network (m ∷ ms) (n ∷ nn) [] = true
same_network (m ∷ ms) (n ∷ nn) (b ∷ ip) = (bit_and n m == bit_and b m) && same_network ms nn ip

-- IPNet.Contains
unfoldable pub subnet_contains : Subnet → Ip → Bool
unfolding text network_number_and_mask same_network
subnet_contains n ip = elim (network_number_and_mask n) [
  | none ↦ length (text ip) == 0
  | some (nn, m) ↦ (length (text ip) == length nn) && same_network m nn (text ip)
]

-- What a run of the functions above opens.
unfoldable pub net_runs : ℕ
unfolding is_v4_mapped low_four list_beq to4 equal text subnet_contains mask_size
net_runs = 0
