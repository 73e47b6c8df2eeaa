-- ===== src/Vpn/Packet/Checksum.antt =====
-- CalculateChecksum is the Internet checksum: a header that carries it sums to all ones.
use peer_mesh.Prelude.{
  ℕ, zero, suc, ◌+◌, ◌-◌, ◌*◌, ◌/◌, ◌%◌, ◌^◌, ◌≤◌, ◌<◌, ◌≡◌, refl, sym, ◌∙◌, ◌⊎◌, inl, inr, List,
  length, set, length-set, get_or-set_self, get_or-set_ne, arith, ok,
}
use peer_mesh.Prelude.Bytes.{AreBytes}
use peer_mesh.Prelude.Bytes.{set-AreBytes, get_or-lt}
use peer_mesh.Vpn.Packet.{Packet, uint16_at, sum_words, fold_carry, fold_fuel, calculate_checksum}

-- The sum of `n` words from byte i on, without wrap-around.
abbrev total : ℕ → ℕ → List ℕ → ℕ
total zero i bytes = 0
total (suc n) i bytes = uint16_at bytes i + total n (i + 2) bytes

total-le : (n i : ℕ) (bytes : List ℕ) → AreBytes bytes → total n i bytes ≤ n * 65535
total-le zero i bytes b = omega arith
total-le (suc n) i bytes b =
    omega (arith, total-le n (i + 2) bytes b, get_or-lt bytes i b, get_or-lt bytes (i + 1) b)

-- The uint32 of the loop does not overflow.
sum_words-total :
    (n i s : ℕ) (bytes : List ℕ)
    → AreBytes bytes
    → s + n * 65535 < 2 ^ 32
    → sum_words n i s bytes ≡ s + total n i bytes
unfolding sum_words
sum_words-total zero i s bytes b h = omega arith
sum_words-total (suc n) i s bytes b h =
    let e : (s + uint16_at bytes i) % 2 ^ 32 ≡ s + uint16_at bytes i =
      omega (arith, get_or-lt bytes i b, get_or-lt bytes (i + 1) b) in
    rw e (
      omega (
        arith,
        get_or-lt bytes i b,
        get_or-lt bytes (i + 1) b,
        sum_words-total n (i + 2) (s + uint16_at bytes i) bytes b,
      ))

total-at_checksum :
    (bytes : List ℕ) → total 10 0 bytes ≡ total 5 0 bytes + uint16_at bytes 10 + total 4 12 bytes
total-at_checksum bytes = omega arith

-- Writes outside a range of words leave its sum alone.
total-set_below :
    (n i j v : ℕ) (bytes : List ℕ) → j < i → total n i (set bytes j v) ≡ total n i bytes
total-set_below zero i j v bytes h = refl
total-set_below (suc n) i j v bytes h = omega (
  arith,
  get_or-set_ne bytes j i v 0 (λ e. omega arith),
  get_or-set_ne bytes j (i + 1) v 0 (λ e. omega arith),
  total-set_below n (i + 2) j v bytes (omega arith),
)

total-set_above :
    (n i j v : ℕ) (bytes : List ℕ) → i + 2 * n ≤ j → total n i (set bytes j v) ≡ total n i bytes
total-set_above zero i j v bytes h = refl
total-set_above (suc n) i j v bytes h = omega (
  arith,
  get_or-set_ne bytes j i v 0 (λ e. omega arith),
  get_or-set_ne bytes j (i + 1) v 0 (λ e. omega arith),
  total-set_above n (i + 2) j v bytes (omega arith),
)

fold_carry-le : (s : ℕ) → s < 2 ^ 32 → fold_carry fold_fuel s ≤ 65535
unfolding fold_carry
fold_carry-le s h = ground arith

fold_carry-mod : (n s : ℕ) → fold_carry n s % 65535 ≡ s % 65535
unfolding fold_carry
fold_carry-mod zero s = refl
fold_carry-mod (suc n) s = ground (arith, fold_carry-mod n (s % 65536 + s / 65536))

-- The loop that folds the carries of a uint32 ends within three rounds: what is left fits in 16 bits
-- and is the sum modulo 65535.
pub fold_carry-ends :
    (s : ℕ)
    → s < 2 ^ 32
    → (fold_carry fold_fuel s ≤ 65535) × (fold_carry fold_fuel s % 65535 ≡ s % 65535)
fold_carry-ends s h = (fold_carry-le s h, fold_carry-mod fold_fuel s)

fold_carry-pos : (n s : ℕ) → 0 < s → 0 < fold_carry n s
unfolding fold_carry
fold_carry-pos zero s h = h
fold_carry-pos (suc n) s h = ground (arith, fold_carry-pos n (s % 65536 + s / 65536))

Zero-cases : (n : ℕ) → (n ≡ 0) ⊎ (0 < n)
Zero-cases zero = inl refl
Zero-cases (suc n) = inr (omega arith)

abbrev pub with_checksum : List ℕ → ℕ → ℕ → List ℕ
with_checksum bytes hi lo = set (set bytes 10 hi) 11 lo

with_checksum-AreBytes :
    (bytes : List ℕ) (hi lo : ℕ)
    → AreBytes bytes
    → hi < 256
    → lo < 256
    → AreBytes (with_checksum bytes hi lo)
with_checksum-AreBytes bytes hi lo b h l =
    set-AreBytes (set bytes 10 hi) 11 lo (set-AreBytes bytes 10 hi b h) l

-- The header's sum with a checksum in it, from the sum of the other words.
total-with_checksum :
    (bytes : List ℕ) (hi lo : ℕ)
    → 20 ≤ length bytes
    → total 10 0 (with_checksum bytes hi lo) ≡ total 5 0 bytes + (hi * 256 + lo) + total 4 12 bytes
total-with_checksum bytes hi lo h = omega (
  arith,
  total-at_checksum (with_checksum bytes hi lo),
  total-set_above 5 0 11 lo (set bytes 10 hi) (omega arith),
  total-set_above 5 0 10 hi bytes (omega arith),
  total-set_below 4 12 11 lo (set bytes 10 hi) (omega arith),
  total-set_below 4 12 10 hi bytes (omega arith),
  get_or-set_self (set bytes 10 hi) 11 lo 0 (rw length-set (omega arith)),
  get_or-set_ne (set bytes 10 hi) 11 10 lo 0 (λ e. omega arith),
  get_or-set_self bytes 10 hi 0 (omega arith),
)

-- The sum of the words around the checksum.
abbrev around : List ℕ → ℕ
around bytes = total 5 0 bytes + total 4 12 bytes

sum_words-with_checksum :
    (bytes : List ℕ) (hi lo : ℕ)
    → AreBytes bytes
    → 20 ≤ length bytes
    → hi < 256
    → lo < 256
    → sum_words 10 0 0 (with_checksum bytes hi lo) ≡ around bytes + (hi * 256 + lo)
sum_words-with_checksum bytes hi lo b h k l = omega (
  arith,
  sum_words-total 10 0 0 (with_checksum bytes hi lo) (with_checksum-AreBytes bytes hi lo b k l)
      (omega arith),
  total-with_checksum bytes hi lo h,
)

-- The checksum is the complement of the folded sum.
calculate_checksum_lem :
    (p : Packet)
    → 20 ≤ length p.bytes
    → AreBytes p.bytes
    → calculate_checksum p ≡ (
      ok (65535 - fold_carry fold_fuel (around p.bytes)),
      record p { bytes = with_checksum p.bytes 0 0 },
    )
unfolding calculate_checksum
calculate_checksum_lem p h b =
    let e : sum_words 10 0 0 (with_checksum p.bytes 0 0) ≡ around p.bytes =
      omega (arith, sum_words-with_checksum p.bytes 0 0 b h (omega arith) (omega arith)) in
    ground (arith, e, small)
  where
    small : fold_carry fold_fuel (around p.bytes) ≤ 65535
    small =
        fold_carry-le (around p.bytes)
          (omega (arith, total-le 5 0 p.bytes b, total-le 4 12 p.bytes b))

around-with_checksum :
    (bytes : List ℕ) (hi lo : ℕ) → around (with_checksum bytes hi lo) ≡ around bytes
around-with_checksum bytes hi lo = omega (
  arith,
  total-set_above 5 0 11 lo (set bytes 10 hi) (omega arith),
  total-set_above 5 0 10 hi bytes (omega arith),
  total-set_below 4 12 11 lo (set bytes 10 hi) (omega arith),
  total-set_below 4 12 10 hi bytes (omega arith),
)

fold_carry_zero : (s : ℕ) → s ≡ 0 → fold_carry fold_fuel s ≡ 0
unfolding fold_carry
fold_carry_zero s e = rw e refl

-- A sum and the complement of its folding fold to all ones.
fold_carry_complement :
    (s : ℕ) → s < 2 ^ 31 → fold_carry fold_fuel (s + (65535 - fold_carry fold_fuel s)) ≡ 65535
fold_carry_complement s h =
    let t = s + (65535 - fold_carry fold_fuel s) in
    let below = fold_carry-le s (omega arith) in
    let pos : 0 < t = elim (Zero-cases s) [
      | inl z ↦ omega (arith, fold_carry_zero s z)
      | inr p ↦ omega arith
    ] in
    omega (
      arith,
      below,
      fold_carry-mod fold_fuel s,
      fold_carry-mod fold_fuel t,
      fold_carry-pos fold_fuel t pos,
      fold_carry-le t (omega arith),
    )

calculate_checksum-long :
    (p q : Packet) (c : ℕ) → calculate_checksum p ≡ (ok c, q) → 20 ≤ length p.bytes
unfolding calculate_checksum
calculate_checksum-long p q c h = ground arith

around-lt : (bytes : List ℕ) → AreBytes bytes → around bytes < 2 ^ 31
around-lt bytes b = omega (arith, total-le 5 0 bytes b, total-le 4 12 bytes b)

-- When CalculateChecksum succeeds on a packet of bytes, the header with the checksum stored in it
-- sums and folds to 0xffff, as a receiver wants it.
pub checksum_verifies :
    (p q : Packet) (c : ℕ)
    → AreBytes p.bytes
    → calculate_checksum p ≡ (ok c, q)
    → fold_carry fold_fuel (sum_words 10 0 0 (with_checksum q.bytes (c / 256) (c % 256))) ≡ 65535
checksum_verifies p q c b h =
    let long = calculate_checksum-long p q c h in
    let same = sym (calculate_checksum_lem p long b) ∙ h in
    let cleared = with_checksum-AreBytes p.bytes 0 0 b (omega arith) (omega arith) in
    let value : 65535 - fold_carry fold_fuel (around p.bytes) ≡ c = ground arith in
    let state : record p { bytes = with_checksum p.bytes 0 0 } ≡ q = ground arith in
    let sum : sum_words 10 0 0 (with_checksum (with_checksum p.bytes 0 0) (c / 256) (c % 256))
        ≡ around p.bytes + c =
      omega (
        arith,
        sum_words-with_checksum (with_checksum p.bytes 0 0) (c / 256) (c % 256) cleared
            (rw (length-set, length-set) long) (omega arith) (omega arith),
        around-with_checksum p.bytes 0 0,
      ) in
    rw (← state, sum, ← value) (fold_carry_complement (around p.bytes) (around-lt p.bytes b))
