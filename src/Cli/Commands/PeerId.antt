-- ===== src/Cli/Commands/PeerId.antt =====
-- The ID that a peer gets from its host's name.
use peer_mesh.Prelude.{
  Bool, leb, ◌≤◌, ℕ, ◌+◌, ◌-◌, ◌*◌, ◌%◌, ◌<◌, ◌≡◌, refl, true, ◌&&◌, Option, [], ◌∷◌, ◌++◌, length,
  arith, ◌==◌, nat_eq,
}
use peer_mesh.Prelude.Bytes.{all_below, all_below_sound}
use peer_mesh.Cli.Commands.{Text, host, host_hash, padded, generate_peer_id}

host_hash-lt : (hash : ℕ) (cs : Text) → hash < 10000 → host_hash hash cs < 10000
unfolding host_hash
host_hash-lt hash [] h = h
host_hash-lt hash (c ∷ cs) h = host_hash-lt ((hash * 31 + c) % 10000) cs (omega arith)

-- The number that decimal digits write.
abbrev pub read_decimal : ℕ → Text → ℕ
read_decimal n [] = n
read_decimal n (c ∷ cs) = read_decimal (n * 10 + (c - 48)) cs

abbrev is_digit : ℕ → Bool
is_digit c = leb 48 c && leb c 57

abbrev are_digits : Text → Bool
are_digits [] = true
are_digits (c ∷ cs) = is_digit c && are_digits cs

-- The code points of the decimal digits.
abbrev pub AreDigits : Text → Type 0
AreDigits [] = Unit
AreDigits (c ∷ cs) = (48 ≤ c) × (c ≤ 57) × AreDigits cs

are_digits-AreDigits : (cs : Text) → are_digits cs ≡ true → AreDigits cs
are_digits-AreDigits [] h = tt
are_digits-AreDigits (c ∷ cs) h =
    (ground (arith, h), ground (arith, h), are_digits-AreDigits cs (ground (arith, h)))

abbrev is_right : ℕ → Text → Bool
is_right n digits = (length digits == 4) && (read_decimal 0 digits == n) && are_digits digits

four_digits : all_below 10000 (λ n. is_right n (padded n)) ≡ true
unfolding all_below padded
four_digits = refl

padded-digits :
    (n : ℕ)
    → n < 10000
    → (length (padded n) ≡ 4) × (read_decimal 0 (padded n) ≡ n) × AreDigits (padded n)
padded-digits n h = (
  ground (arith, right),
  ground (arith, right),
  are_digits-AreDigits (padded n) (ground (arith, right)),
)
  where
    right : is_right n (padded n) ≡ true
    right = all_below_sound 10000 (λ n. is_right n (padded n)) n four_digits h

-- The ID of a peer is the host's name in lower case, a dash, and exactly four decimal digits, which write
-- the name's hash: no hash is too long for the format.
pub generate_peer_id-digits :
    (hostname : Option Text) (to_lower : Text → Text)
    → (digits : Text) × (generate_peer_id hostname to_lower
        ≡ to_lower (host hostname to_lower) ++ (45 ∷ digits))
      × (length digits ≡ 4)
      × (read_decimal 0 digits ≡ host_hash 0 (host hostname to_lower))
      × AreDigits digits
unfolding generate_peer_id
generate_peer_id-digits hostname to_lower =
    let hash = host_hash 0 (host hostname to_lower) in
    let (four, value, digits) =
      padded-digits hash (host_hash-lt 0 (host hostname to_lower) (omega arith)) in
    (padded hash, refl, four, value, digits)
