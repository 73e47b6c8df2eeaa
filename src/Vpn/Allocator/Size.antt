-- ===== src/Vpn/Allocator/Size.antt =====
-- How many addresses lie between a network's own and its broadcast address.
use Prim.Native.Nat.{bit_and, bit_or}
use native.Mathlib.Nat.{pow-suc}
use peer_mesh.Prelude.{
  ℕ, zero, suc, ◌+◌, ◌-◌, ◌*◌, ◌^◌, ◌<◌, ◌≤◌, ◌≡◌, refl, ap, sym, Bool, true, ◌&&◌, inl, inr,
  Option, none, some, List, [], ◌∷◌, length, leb, ◌==◌, nat_eq, nat_beq_iff, if◌then◌else◌, arith,
  Bool-cases,
}
use peer_mesh.Prelude.Bytes.{AreBytes, value, all_below, all_below_sound}
use peer_mesh.Net.{byte_ones, all_zero, simple_mask_length}
use peer_mesh.Vpn.Allocator.{or_not}
use peer_mesh.Vpn.Allocator.Cidr.{
  is_some, is_mask_byte, block, AreZero, zeros, IsMasked, length-or_not,
}

pow_byte : (m : ℕ) → 2 ^ (8 + m) ≡ 256 * 2 ^ m
pow_byte m =
    let e : 8 + m ≡ suc (suc (suc (suc (suc (suc (suc (suc m))))))) = omega arith in
    rw e (simp pow-suc (omega arith))

pow_bytes : (m n : ℕ) → 2 ^ (m + n * 8) ≡ 2 ^ m * 256 ^ n
pow_bytes m zero = let e : m + 0 * 8 ≡ m = omega arith in rw e (omega arith)
pow_bytes m (suc n) =
    let e : m + suc n * 8 ≡ 8 + (m + n * 8) = omega arith in
    rw (e, pow_byte (m + n * 8), pow_bytes m n, pow-suc) (omega arith)

fits : ℕ → Option ℕ → Bool
fits p none = true
fits p (some k) = leb k 8 && (2 ^ (8 - k) == 256 - p)

sizes : all_below 256 (λ p. fits p (byte_ones p)) ≡ true
unfolding all_below fits
sizes = refl

size_of : (p k : ℕ) → p < 256 → byte_ones p ≡ some k → (k ≤ 8) × (2 ^ (8 - k) ≡ 256 - p)
unfolding fits
size_of p k h e =
    let t : fits p (some k) ≡ true =
      rw e at (all_below_sound 256 (λ p. fits p (byte_ones p)) p sizes h) in
    ground (arith, t)

mask_byte : (p k : ℕ) → byte_ones p ≡ some k → is_mask_byte p ≡ true
mask_byte p k e = elim (Bool-cases (p == 255)) [
  | inl full ↦ rw full refl
  | inr part ↦ rw part (ap is_some e)
]

zeros-value :
    (ps ns : List ℕ)
    → AreZero ps
    → AreBytes ns
    → IsMasked ns ps
    → (value ns ≡ 0) × (value (or_not ns ps) + 1 ≡ 256 ^ length ns)
unfolding or_not
zeros-value ps [] z bn k = (refl, refl)
zeros-value [] (n ∷ ns) z bn k = absurd k
zeros-value (p ∷ ps) (n ∷ ns) z bn k =
    let (none_left, size) = zeros-value ps ns z.1 bn.1 k.1 in
    let bl = block p n (rw z.0 refl) (omega (arith, z.0)) bn.0 k.0 in
    let e : n ≡ 0 = omega (arith, bl.at_most, z.0) in
    let last : bit_or n (255 - p) ≡ 255 = omega (arith, bl.last, e, z.0) in
    (rw (e, none_left) (omega arith), rw (last, length-or_not ns ps, pow-suc) (omega arith))

abbrev Sized : List ℕ → List ℕ → ℕ → Type 0
Sized ps ns ones =
    (ones ≤ length ps * 8) × (value (or_not ns ps) + 1 ≡ value ns + 2 ^ (length ps * 8 - ones))

behind_full :
    (ps ns : List ℕ) (r : Option ℕ) (ones : ℕ)
    → ((k : ℕ) → simple_mask_length ps ≡ some k → Sized ps ns k)
    → simple_mask_length ps ≡ r
    → elim r [ none ↦ none | some k ↦ some (8 + k) ] ≡ some ones
    → (k : ℕ) × (ones ≡ 8 + k) × Sized ps ns k
behind_full ps ns none ones rest e h = cc
behind_full ps ns (some k) ones rest e h =
    (k, ap (λ (o : Option ℕ). elim o [ none ↦ 0 | some x ↦ x ]) (sym h), rest k e)

behind_part :
    (ps : List ℕ) (r : Option ℕ) (ones : ℕ)
    → (if all_zero ps then r else none) ≡ some ones
    → AreZero ps × (r ≡ some ones)
behind_part ps r ones h = elim (Bool-cases (all_zero ps)) [
  | inl z ↦ (zeros ps z, rw z at h)
  | inr o ↦ absurd (cc (rw o at h))
]

full_size :
    (p n k ones : ℕ) (ps ns : List ℕ)
    → p ≡ 255
    → n < 256
    → bit_and n p ≡ n
    → length ps ≡ length ns
    → ones ≡ 8 + k
    → Sized ps ns k
    → Sized (p ∷ ps) (n ∷ ns) ones
unfolding or_not
full_size p n k ones ps ns full hn masked l e (le, size) =
    let bl = block p n (rw full refl) (omega (arith, full)) hn masked in
    let last : bit_or n (255 - p) ≡ n = omega (arith, bl.last, full) in
    let w : suc (length ps) * 8 - ones ≡ length ps * 8 - k = omega arith in
    (omega (arith, le, e), rw (w, last, length-or_not ns ps) (omega (arith, size)))

part_size :
    (p n ones : ℕ) (ps ns : List ℕ)
    → byte_ones p ≡ some ones
    → p < 256
    → AreBytes (n ∷ ns)
    → bit_and n p ≡ n
    → length ps ≡ length ns
    → AreZero ps
    → IsMasked ns ps
    → Sized (p ∷ ps) (n ∷ ns) ones
unfolding or_not
part_size p n ones ps ns e hp bn masked l z k =
    let bl = block p n (mask_byte p ones e) hp bn.0 masked in
    let (most, width) = size_of p ones hp e in
    let (none_left, size) = zeros-value ps ns z bn.1 k in
    let d : 256 - p ≡ suc (255 - p) = omega (arith, hp) in
    let w : suc (length ps) * 8 - ones ≡ (8 - ones) + length ps * 8 = omega (arith, most) in
    (
      omega (arith, most),
      rw (w, pow_bytes (8 - ones) (length ps), width, bl.last, length-or_not ns ps, none_left, l, d)
          (omega (arith, size)),
    )

pub network_size :
    (ps ns : List ℕ) (ones : ℕ)
    → simple_mask_length ps ≡ some ones
    → AreBytes ps
    → AreBytes ns
    → IsMasked ns ps
    → length ps ≡ length ns
    → Sized ps ns ones
unfolding simple_mask_length or_not
network_size [] [] ones h bp bn k l =
    let e : ones ≡ 0 = ap (λ (o : Option ℕ). elim o [ none ↦ 0 | some x ↦ x ]) (sym h) in
    rw e (omega arith, refl)
network_size [] (n ∷ ns) ones h bp bn k l = absurd k
network_size (p ∷ ps) [] ones h bp bn k l = absurd (omega (arith, l))
network_size (p ∷ ps) (n ∷ ns) ones h bp bn k l = elim (Bool-cases (p == 255)) [
  | inl full ↦
      let (m, e, sized) =
        behind_full ps ns (simple_mask_length ps) ones
          (λ m q. network_size ps ns m q bp.1 bn.1 k.1 (omega arith)) refl (rw full at h) in
      full_size p n m ones ps ns ((nat_beq_iff p 255).0 full) bn.0 k.0 (omega arith) e sized
  | inr part ↦
      let (z, e) = behind_part ps (byte_ones p) ones (rw part at h) in
      part_size p n ones ps ns e bp.0 bn k.0 (omega arith) z k.1
]
