-- ===== src/Vpn/Allocator/Increment.antt =====
-- incrementIP and its inlined copies as addition on the number that an address spells.
use peer_mesh.Prelude.{
  ℕ, zero, suc, ◌+◌, ◌-◌, ◌*◌, ◌^◌, ◌%◌, ◌≤◌, ◌<◌, ◌≡◌, ◌≢◌, refl, ap, sym, ◌∙◌, inl, inr, [], ◌∷◌,
  length, get_or, set, length-set, get_or-set_self, Bool-cases, arith, ◌==◌, nat_eq, nat_beq_iff,
}
use native.Mathlib.Nat.{pow-suc, mod-eq_of_lt}
use peer_mesh.Prelude.Bytes.{AreBytes, value, set-AreBytes, get_or-lt}
use peer_mesh.Net.{Ip}
use peer_mesh.Vpn.Allocator.{increment_from, increment_ip}

pub value-lt : (ip : Ip) → AreBytes ip → value ip < 256 ^ length ip
value-lt [] b = omega arith
value-lt (x ∷ xs) b = rw pow-suc (grind (arith, value-lt xs b.1))

value-set :
    (ip : Ip) (i v : ℕ)
    → i < length ip
    → value (set ip i v) + get_or ip i 0 * 256 ^ (length ip - suc i)
      ≡ value ip + v * 256 ^ (length ip - suc i)
value-set [] i v h = elim h [ ]
value-set (x ∷ xs) zero v h =
    let e : suc (length xs) - 1 ≡ length xs = omega arith in rw e (omega arith)
value-set (x ∷ xs) (suc i) v h =
    let e : suc (length xs) - suc (suc i) ≡ length xs - suc i = omega arith in
    rw (e, length-set xs i v) (omega (arith, value-set xs i v (omega arith)))

abbrev next : Ip → ℕ → Ip
next ip i = set ip i ((get_or ip i 0 + 1) % 256)

-- One round at index i: the digit after the addition, and what the write does to the number.
module _ (ip : Ip) (i : ℕ) (b : AreBytes ip) (h : i < length ip) where
  next-AreBytes : AreBytes (next ip i)
  next-AreBytes = set-AreBytes ip i ((get_or ip i 0 + 1) % 256) b (omega arith)

  digit-next : get_or (next ip i) i 0 ≡ (get_or ip i 0 + 1) % 256
  digit-next = get_or-set_self ip i _ 0 h

  value-next_wrapped :
      get_or (next ip i) i 0 ≡ 0
      → value (next ip i) + 256 * 256 ^ (length ip - suc i) ≡ value ip + 256 ^ (length ip - suc i)
  value-next_wrapped e =
      let d : get_or ip i 0 ≡ 255 = omega (arith, digit-next, get_or-lt ip i b) in
      let z : (get_or ip i 0 + 1) % 256 ≡ 0 = omega arith in
      omega (
        arith,
        value-set ip i ((get_or ip i 0 + 1) % 256) h,
        ap (λ (t : ℕ). t * 256 ^ (length ip - suc i)) z,
        ap (λ (t : ℕ). t * 256 ^ (length ip - suc i)) d,
      )

  value-next_stopped :
      get_or (next ip i) i 0 ≢ 0 → value (next ip i) ≡ value ip + 256 ^ (length ip - suc i)
  value-next_stopped e =
      let z : (get_or ip i 0 + 1) % 256 ≡ get_or ip i 0 + 1 =
        omega (arith, digit-next, get_or-lt ip i b) in
      omega (
        arith,
        value-set ip i ((get_or ip i 0 + 1) % 256) h,
        ap (λ (t : ℕ). t * 256 ^ (length ip - suc i)) z,
      )

pub increment_from-AreBytes : (n : ℕ) (ip : Ip) → AreBytes ip → AreBytes (increment_from n ip)
unfolding increment_from
increment_from-AreBytes zero ip b = b
increment_from-AreBytes (suc i) ip b = ground (
  arith,
  set-AreBytes ip i ((get_or ip i 0 + 1) % 256) b (omega arith),
  increment_from-AreBytes i (set ip i ((get_or ip i 0 + 1) % 256)),
)

pub length-increment_from : (n : ℕ) (ip : Ip) → length (increment_from n ip) ≡ length ip
unfolding increment_from
length-increment_from zero ip = refl
length-increment_from (suc i) ip = ground (
  arith,
  length-set ip i ((get_or ip i 0 + 1) % 256),
  length-increment_from i (set ip i ((get_or ip i 0 + 1) % 256)),
)

pow-below : (n i : ℕ) → suc i ≤ n → 256 ^ (n - i) ≡ 256 * 256 ^ (n - suc i)
pow-below n i h = let e : n - i ≡ suc (n - suc i) = omega arith in rw (e, pow-suc) (omega arith)

-- A sum that fits, and one that is the modulus too large.
mod-self_add : (a n : ℕ) → a < n → (a + n) % n ≡ a
mod-self_add a n h = grind arith

pub value-increment_from :
    (n : ℕ) (ip : Ip)
    → AreBytes ip
    → n ≤ length ip
    → value (increment_from n ip) ≡ (value ip + 256 ^ (length ip - n)) % 256 ^ length ip
unfolding increment_from
value-increment_from zero ip b h =
    let e : length ip - 0 ≡ length ip = omega arith in
    rw e (sym (mod-self_add (value ip) (256 ^ length ip) (value-lt ip b)))
value-increment_from (suc i) ip b h = elim (Bool-cases (get_or (next ip i) i 0 == 0)) [
  | inl z ↦
      let wrapped = value-next_wrapped ip i b h ((nat_beq_iff _ 0).0 z) in
      let rest : value (increment_from i (next ip i))
          ≡ (value (next ip i) + 256 ^ (length ip - i)) % 256 ^ length ip =
        rw length-set at (
          value-increment_from i (next ip i) (next-AreBytes ip i b h)
            (omega (arith, length-set ip i ((get_or ip i 0 + 1) % 256)))) in
      let e : value (next ip i) + 256 ^ (length ip - i) ≡ value ip + 256 ^ (length ip - suc i) =
        omega (arith, wrapped, pow-below (length ip) i h) in
      rw z (rest ∙ ap (λ (t : ℕ). t % 256 ^ length ip) e)
  | inr z ↦
      let stopped = value-next_stopped ip i b h (λ e. cc (z, (nat_beq_iff _ 0).1 e)) in
      let fits : value (next ip i) < 256 ^ length ip =
        rw length-set at (value-lt (next ip i) (next-AreBytes ip i b h)) in
      rw z (rw (← stopped) (sym (mod-eq_of_lt fits)))
]

pub increment_ip-AreBytes : (ip : Ip) → AreBytes ip → AreBytes (increment_ip ip)
unfolding increment_ip
increment_ip-AreBytes ip b = increment_from-AreBytes (length ip) ip b

pub length-increment_ip : (ip : Ip) → length (increment_ip ip) ≡ length ip
unfolding increment_ip
length-increment_ip ip = length-increment_from (length ip) ip

-- incrementIP adds one to the number that an address spells, modulo the size of its family.
pub value-increment_ip :
    (ip : Ip) → AreBytes ip → value (increment_ip ip) ≡ (value ip + 1) % 256 ^ length ip
unfolding increment_ip
value-increment_ip ip b =
    let e : length ip - length ip ≡ 0 = omega arith in
    rw e at (value-increment_from (length ip) ip b (omega arith))

-- `n` calls of incrementIP.
abbrev pub skip : ℕ → Ip → Ip
skip zero ip = ip
skip (suc n) ip = skip n (increment_ip ip)

pub skip-AreBytes : (n : ℕ) (ip : Ip) → AreBytes ip → AreBytes (skip n ip)
skip-AreBytes zero ip b = b
skip-AreBytes (suc n) ip b = skip-AreBytes n (increment_ip ip) (increment_ip-AreBytes ip b)

pub length-skip : (n : ℕ) (ip : Ip) → length (skip n ip) ≡ length ip
length-skip zero ip = refl
length-skip (suc n) ip = length-skip n (increment_ip ip) ∙ length-increment_ip ip

-- As long as it stays inside the family, skipping adds.
pub value-skip :
    (n : ℕ) (ip : Ip)
    → AreBytes ip
    → value ip + n < 256 ^ length ip
    → value (skip n ip) ≡ value ip + n
value-skip zero ip b h = omega arith
value-skip (suc n) ip b h =
    let e : value (increment_ip ip) ≡ value ip + 1 =
      value-increment_ip ip b ∙ mod-eq_of_lt (omega arith) in
    let rest =
      value-skip n (increment_ip ip) (increment_ip-AreBytes ip b)
        (rw (length-increment_ip ip, e) (omega arith)) in
    omega arith
