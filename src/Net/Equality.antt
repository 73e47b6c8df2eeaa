-- ===== src/Net/Equality.antt =====
-- IP.Equal against IP.String.
use peer_mesh.Prelude.{
  ℕ, zero, suc, ◌-◌, ◌≡◌, refl, ap, sym, ◌∙◌, ◌≢◌, inl, inr, ◌&&◌, Bool-cases, Bool, true, false,
  List, [], ◌∷◌, ◌++◌, length, take, drop, arith, ◌==◌, list_eq, nat_eq, nat_beq_iff, list_beq_iff,
  length-drop,
}
use peer_mesh.Net.{Ip, is_v4_mapped, low_four, to4, equal, text, v4_in_v6_prefix}

take-append-drop : (n : ℕ) (xs : List ℕ) → take n xs ++ drop n xs ≡ xs
take-append-drop zero xs = refl
take-append-drop (suc n) [] = refl
take-append-drop (suc n) (x ∷ xs) = ap (λ (ys : List ℕ). x ∷ ys) (take-append-drop n xs)

mapped-eq :
    (a b : Ip) → is_v4_mapped a ≡ true → is_v4_mapped b ≡ true → low_four a ≡ low_four b → a ≡ b
unfolding is_v4_mapped low_four
mapped-eq a b ma mb e =
    sym (take-append-drop 12 a)
    ∙ ap (λ (t : List ℕ). t ++ drop 12 a) ((list_beq_iff (take 12 a) v4_in_v6_prefix).0 ma)
    ∙ ap (λ (t : List ℕ). v4_in_v6_prefix ++ t) e
    ∙ ap (λ (t : List ℕ). t ++ drop 12 b) (sym ((list_beq_iff (take 12 b) v4_in_v6_prefix).0 mb))
    ∙ take-append-drop 12 b

length-low_four : (a : Ip) → length (low_four a) ≡ length a - 12
unfolding low_four
length-low_four a = length-drop 12 a

-- The three forms of an address, with the text of each.
data Form (a : Ip) : Type 0 where
  short : length a ≡ 4 → text a ≡ a → Form a
  mapped : length a ≡ 16 → is_v4_mapped a ≡ true → text a ≡ low_four a → Form a
  plain : length a ≢ 4 → ((length a == 16) && is_v4_mapped a) ≡ false → text a ≡ a → Form a

form : (a : Ip) → Form a
unfolding text to4
form a = elim (Bool-cases (length a == 4)) [
  | inl e ↦ short ((nat_beq_iff _ 4).0 e) (ground arith)
  | inr e ↦ elim (Bool-cases ((length a == 16) && is_v4_mapped a)) [
    | inl m ↦ mapped (ground arith) (ground arith) (ground arith)
    | inr m ↦ plain (ground arith) m (ground arith)
  ]
]

beq_of_iff : (b c : Bool) → (b ≡ true → c ≡ true) → (c ≡ true → b ≡ true) → b ≡ c
beq_of_iff true c f g = sym (f refl)
beq_of_iff false true f g = g refl
beq_of_iff false false f g = refl

lengths_of : (a b : Ip) → (a == b) ≡ true → length a ≡ length b
lengths_of a b h = ap length ((list_beq_iff a b).0 h)

equal-forms : (a b : Ip) → Form a → Form b → equal a b ≡ (text a == text b)
unfolding equal
equal-forms a b (short la ta) (short lb tb) = rw (ta, tb) (ground arith)
equal-forms a b (short la ta) (mapped lb mb tb) = rw (ta, tb) (ground arith)
equal-forms a b (short la ta) (plain lb mb tb) =
    rw (ta, tb) (beq_of_iff _ _ (λ h. ground arith) (λ h. ground (arith, lengths_of a b h)))
equal-forms a b (mapped la ma ta) (short lb tb) = rw (ta, tb) (ground arith)
equal-forms a b (mapped la ma ta) (mapped lb mb tb) =
    rw (ta, tb)
      (beq_of_iff _ _
        (λ h. (list_beq_iff _ _).1 (ap low_four ((list_beq_iff a b).0 (ground arith))))
        (λ h. ground (arith, (list_beq_iff a b).1 (mapped-eq a b ma mb ((list_beq_iff _ _).0 h)))))
equal-forms a b (mapped la ma ta) (plain lb mb tb) =
    rw (ta, tb)
      (beq_of_iff _ _ (λ h. ground (arith, list_beq_iff a b))
        (λ h. ground (arith, lengths_of _ _ h, length-low_four a)))
equal-forms a b (plain la ma ta) (short lb tb) =
    rw (ta, tb) (beq_of_iff _ _ (λ h. ground arith) (λ h. ground (arith, lengths_of a b h)))
equal-forms a b (plain la ma ta) (mapped lb mb tb) =
    rw (ta, tb)
      (beq_of_iff _ _ (λ h. ground (arith, list_beq_iff a b))
        (λ h. ground (arith, lengths_of _ _ h, length-low_four b)))
equal-forms a b (plain la ma ta) (plain lb mb tb) =
    rw (ta, tb) (beq_of_iff _ _ (λ h. ground arith) (λ h. ground (arith, lengths_of a b h)))

-- Two addresses are Equal exactly when they have one text.
pub equal-text : (a b : Ip) → equal a b ≡ (text a == text b)
equal-text a b = equal-forms a b (form a) (form b)
