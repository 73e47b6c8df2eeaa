-- ===== src/Vpn/Allocator/Cidr.antt =====
-- The addresses of a subnet by its mask: those between the network's own and its broadcast address.
use Prim.Native.Nat.{bit_and, bit_or}
use native.Mathlib.Nat.{lt_of_mul-lt-mul_right}
use peer_mesh.Prelude.{
  ℕ, suc, ◌+◌, ◌-◌, ◌*◌, ◌^◌, ◌<◌, ◌≤◌, ◌≡◌, refl, ap, sym, ◌∙◌, Bool, true, false, ◌&&◌, ◌||◌, ◌⊎◌,
  inl, inr, Option, none, some, List, [], ◌∷◌, length, leb, ◌==◌, nat_eq, nat_beq_iff,
  if◌then◌else◌, arith, Bool-cases,
}
use peer_mesh.Prelude.Bytes.{AreBytes, value, all_below, all_below_sound}
use peer_mesh.Net.{byte_ones, all_zero, simple_mask_length, same_network}
use peer_mesh.Vpn.Allocator.{or_not}
use peer_mesh.Vpn.Allocator.Increment.{value-lt}

abbrev pub is_some : Option ℕ → Bool
is_some none = false
is_some (some n) = true

-- A byte of ones and then zeros.
abbrev pub is_mask_byte : ℕ → Bool
is_mask_byte p = (p == 255) || is_some (byte_ones p)

-- The bytes of a network's byte n under p are n and those up to 255 - p behind it.
abbrev is_block : ℕ → ℕ → Bool
is_block p n =
    if bit_and n p == n
    then leb n p
      && (bit_or n (255 - p) == n + (255 - p))
      && all_below (256 - p) (λ r. bit_and (n + r) p == n)
    else true

blocks :
    all_below 256 (λ p. if is_mask_byte p then all_below 256 (λ n. is_block p n) else true) ≡ true
unfolding all_below
blocks = refl

pub record Block (p n : ℕ) : Type 0 where
  pub at_most : n ≤ p
  pub last : bit_or n (255 - p) ≡ n + (255 - p)
  pub inside : (r : ℕ) → r < 256 - p → bit_and (n + r) p ≡ n

pub block : (p n : ℕ) → is_mask_byte p ≡ true → p < 256 → n < 256 → bit_and n p ≡ n → Block p n
block p n m hp hn e = record {
  at_most = ground (arith, table);
  last = ground (arith, table);
  inside = λ r h.
      (nat_beq_iff _ n).0
        (all_below_sound (256 - p) (λ r. bit_and (n + r) p == n) r (ground (arith, table)) h);
}
  where
    rows : all_below 256 (λ n. is_block p n) ≡ true
    rows = ground (
      arith,
      all_below_sound 256 (λ p. if is_mask_byte p then all_below 256 (λ n. is_block p n) else true)
          p blocks hp,
    )

    table : is_block p n ≡ true
    table = all_below_sound 256 (λ n. is_block p n) n rows hn

-- A mask of ones and then zeros.
abbrev pub AreZero : List ℕ → Type 0
AreZero [] = Unit
AreZero (p ∷ ps) = (p ≡ 0) × AreZero ps

abbrev pub IsMask : List ℕ → Type 0
IsMask [] = Unit
IsMask (p ∷ ps) = ((p ≡ 255) × IsMask ps) ⊎ ((is_mask_byte p ≡ true) × AreZero ps)

pub zeros : (ps : List ℕ) → all_zero ps ≡ true → AreZero ps
zeros [] h = tt
zeros (p ∷ ps) h = (ground (arith, nat_beq_iff p 0), zeros ps (ground (arith)))

behind_full :
    (ps : List ℕ) (r : Option ℕ) (ones : ℕ)
    → ((n : ℕ) → simple_mask_length ps ≡ some n → IsMask ps)
    → simple_mask_length ps ≡ r
    → elim r [ none ↦ none | some n ↦ some (8 + n) ] ≡ some ones
    → IsMask ps
behind_full ps none ones rest e h = cc
behind_full ps (some n) ones rest e h = rest n e

behind_part :
    (p : ℕ) (ps : List ℕ) (r : Option ℕ) (ones : ℕ)
    → byte_ones p ≡ r
    → (p == 255) ≡ false
    → (if all_zero ps then r else none) ≡ some ones
    → (is_mask_byte p ≡ true) × AreZero ps
behind_part p ps none ones e part h = absurd (ground (arith, h))
behind_part p ps (some n) ones e part h = (rw part (ap is_some e), zeros ps (ground (arith, h)))

pub simple_mask_length-IsMask :
    (ps : List ℕ) (ones : ℕ) → simple_mask_length ps ≡ some ones → IsMask ps
unfolding simple_mask_length
simple_mask_length-IsMask [] ones h = tt
simple_mask_length-IsMask (p ∷ ps) ones h = elim (Bool-cases (p == 255)) [
  | inl full ↦ inl (
    (nat_beq_iff p 255).0 full,
    behind_full ps (simple_mask_length ps) ones (λ n. simple_mask_length-IsMask ps n) refl
        (rw full at h),
  )
  | inr part ↦ inr (behind_part p ps (byte_ones p) ones refl part (rw part at h))
]

-- The network's bytes have no bit outside the mask.
abbrev pub IsMasked : List ℕ → List ℕ → Type 0
IsMasked [] ps = Unit
IsMasked (n ∷ ns) [] = ⊥
IsMasked (n ∷ ns) (p ∷ ps) = (bit_and n p ≡ n) × IsMasked ns ps

pub length-or_not : (ns ps : List ℕ) → length (or_not ns ps) ≡ length ns
unfolding or_not
length-or_not [] ps = refl
length-or_not (n ∷ ns) [] = refl
length-or_not (n ∷ ns) (p ∷ ps) = omega (arith, length-or_not ns ps)

and_zero : (n : ℕ) → n < 256 → bit_and n 0 ≡ 0
and_zero n h = (nat_beq_iff _ 0).0 (all_below_sound 256 (λ n. bit_and n 0 == 0) n table h)
  where
    table : all_below 256 (λ n. bit_and n 0 == 0) ≡ true
    table = unfold all_below in refl

zeros-same_network :
    (ps ns ip : List ℕ) → AreZero ps → AreBytes ns → AreBytes ip → same_network ps ns ip ≡ true
unfolding same_network
zeros-same_network [] ns ip z bn bi = refl
zeros-same_network (p ∷ ps) [] ip z bn bi = refl
zeros-same_network (p ∷ ps) (n ∷ ns) [] z bn bi = refl
zeros-same_network (p ∷ ps) (n ∷ ns) (b ∷ ip) z bn bi =
    rw (z.0, and_zero n bn.0, and_zero b bi.0) (zeros-same_network ps ns ip z.1 bn.1 bi.1)

-- The first digits of numbers in order.
digit-le : (x y q u v : ℕ) → v < q → x * q + u ≤ y * q + v → x ≤ y
digit-le x y q u v lt le =
    let below : x * q < suc y * q = omega arith in omega (arith, lt_of_mul-lt-mul_right q below)

zeros-IsMask : (ps : List ℕ) → AreZero ps → IsMask ps
zeros-IsMask [] z = tt
zeros-IsMask (p ∷ ps) z = inr (rw z.0 refl, z.1)

IsMask-head : (p : ℕ) (ps : List ℕ) → IsMask (p ∷ ps) → is_mask_byte p ≡ true
IsMask-head p ps (inl m) = rw m.0 refl
IsMask-head p ps (inr m) = m.0

IsMask-tail : (p : ℕ) (ps : List ℕ) → IsMask (p ∷ ps) → IsMask ps
IsMask-tail p ps (inl m) = m.1
IsMask-tail p ps (inr m) = zeros-IsMask ps m.1

or_not-AreBytes :
    (ns ps : List ℕ)
    → IsMask ps
    → AreBytes ps
    → AreBytes ns
    → IsMasked ns ps
    → AreBytes (or_not ns ps)
unfolding or_not
or_not-AreBytes [] ps m bp bn k = tt
or_not-AreBytes (n ∷ ns) [] m bp bn k = bn
or_not-AreBytes (n ∷ ns) (p ∷ ps) m bp bn k =
    let b = block p n (IsMask-head p ps m) bp.0 bn.0 k.0 in
    (
      omega (arith, b.at_most, b.last, bp.0),
      or_not-AreBytes ns ps (IsMask-tail p ps m) bp.1 bn.1 k.1,
    )

pub value-or_not_lt :
    (ns ps : List ℕ)
    → IsMask ps
    → AreBytes ps
    → AreBytes ns
    → IsMasked ns ps
    → value (or_not ns ps) < 256 ^ length ns
value-or_not_lt ns ps m bp bn k =
    rw (length-or_not ns ps) at (value-lt (or_not ns ps) (or_not-AreBytes ns ps m bp bn k))

-- One byte of an address between the network's own and its broadcast address.
byte_between :
    (p n b q u v w : ℕ)
    → Block p n
    → p < 256
    → v < q
    → w < q
    → n * q + u ≤ b * q + v
    → b * q + v ≤ bit_or n (255 - p) * q + w
    → (n ≤ b) × (b ≤ n + (255 - p)) × (bit_and b p ≡ n)
byte_between p n b q u v w bl hp hv hw le1 le2 =
    let low : n ≤ b = digit-le n b q u v hv le1 in
    let high : b ≤ n + (255 - p) =
      omega (arith, bl.last, digit-le b (bit_or n (255 - p)) q v w hw le2) in
    let e : n + (b - n) ≡ b = omega arith in (low, high, rw e at (bl.inside (b - n) (omega arith)))

cancel_head : (x y q u v : ℕ) → x ≡ y → x * q + u ≤ y * q + v → u ≤ v
cancel_head x y q u v e h = let same : x * q ≡ y * q = ap (λ z. z * q) e in omega arith

-- Under the mask of a network, every address between its own and its broadcast address is in it.
pub same_network-between :
    (ps ns ip : List ℕ)
    → IsMask ps
    → AreBytes ps
    → AreBytes ns
    → AreBytes ip
    → IsMasked ns ps
    → length ip ≡ length ns
    → value ns ≤ value ip
    → value ip ≤ value (or_not ns ps)
    → same_network ps ns ip ≡ true
unfolding same_network or_not
same_network-between [] ns ip m bp bn bi k l le1 le2 = refl
same_network-between (p ∷ ps) [] ip m bp bn bi k l le1 le2 = refl
same_network-between (p ∷ ps) (n ∷ ns) [] m bp bn bi k l le1 le2 = refl
same_network-between (p ∷ ps) (n ∷ ns) (b ∷ ip) m bp bn bi k l le1 le2 =
    let li : length ip ≡ length ns = omega arith in
    let lh = length-or_not ns ps in
    let vi : value ip < 256 ^ length ns = rw li at (value-lt ip bi.1) in
    let vh : value (or_not ns ps) < 256 ^ length ns =
      value-or_not_lt ns ps (IsMask-tail p ps m) bp.1 bn.1 k.1 in
    let le1' : n * 256 ^ length ns + value ns ≤ b * 256 ^ length ns + value ip = rw li at le1 in
    let le2' : b * 256 ^ length ns + value ip
        ≤ bit_or n (255 - p) * 256 ^ length ns + value (or_not ns ps) =
      rw (li, lh) at le2 in
    let bl = block p n (IsMask-head p ps m) bp.0 bn.0 k.0 in
    let (low, high, same) =
      byte_between p n b (256 ^ length ns) (value ns) (value ip) (value (or_not ns ps)) bl bp.0 vi
        vh le1' le2' in
    elim m [
      | inl (full, mask) ↦
          let e : b ≡ n = omega (arith, full, low, high) in
          let last : bit_or n (255 - p) ≡ n = omega (arith, full, bl.last) in
          let rest =
            same_network-between ps ns ip mask bp.1 bn.1 bi.1 k.1 li
              (cancel_head n b (256 ^ length ns) (value ns) (value ip) (sym e) le1')
              (cancel_head b (bit_or n (255 - p)) (256 ^ length ns) (value ip)
                (value (or_not ns ps)) (e ∙ sym last) le2') in
          ground (arith, same, k.0, rest)
      | inr (part, z) ↦ ground (arith, same, k.0, zeros-same_network ps ns ip z bn.1 bi.1)
    ]
