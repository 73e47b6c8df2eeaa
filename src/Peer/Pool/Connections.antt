-- ===== src/Peer/Pool/Connections.antt =====
-- What the methods do to the map of connections: the I/O methods write one connection back or leave
-- the map alone.
use Prim.Native.String.{String}
use peer_mesh.Prelude.{
  ℕ, ◌≡◌, refl, not, inl, inr, some, [], ◌∷◌, arith, if_cases, Option-cases, ◌==◌, string_eq,
  Result,
}
use peer_mesh.Prelude.Int.{ℤ}
use peer_mesh.Prelude.Assoc.{Assoc, lookup, insert, erase}
use peer_mesh.Peer.Pool.{
  Connection, ConnectionPool, Error, Io, get_connection, store, send_on, send, receive_on, receive,
  ping_on, ping,
}

-- Every entry stands under its own ID.
abbrev pub Keyed : Assoc String Connection → Type 0
Keyed [] = Unit
Keyed ((id, c) ∷ m) = (c.id ≡ id) × Keyed m

pub insert-Keyed :
    (id : String) (c : Connection) (m : Assoc String Connection)
    → c.id ≡ id
    → Keyed m
    → Keyed (insert id c m)
unfolding insert
insert-Keyed id c [] e k = (e, tt)
insert-Keyed id c ((j, d) ∷ m) e k =
    if_cases Keyed (j == id) (λ _. (e, k.1)) (λ _. (k.0, insert-Keyed id c m e k.1))

pub erase-Keyed : (id : String) (m : Assoc String Connection) → Keyed m → Keyed (erase id m)
unfolding erase
erase-Keyed id [] k = tt
erase-Keyed id ((j, d) ∷ m) k =
    if_cases Keyed (j == id) (λ _. erase-Keyed id m k.1) (λ _. (k.0, erase-Keyed id m k.1))

pub lookup-Keyed :
    (id : String) (m : Assoc String Connection) (c : Connection)
    → Keyed m
    → lookup id m ≡ some c
    → c.id ≡ id
unfolding lookup
lookup-Keyed id [] c k h = cc
lookup-Keyed id ((j, d) ∷ m) c k h = ground (arith, string_eq.beq_iff j id, lookup-Keyed id m c k.1)

-- The two ways in which an I/O method leaves the pool, for a property of pools.
module _ {ℓ} (P : ConnectionPool → Type ℓ) (p : ConnectionPool) (id : String) where
  send_on_cases :
      (c : Connection) (io : Io)
      → P p
      → ((d : Connection) → d.id ≡ c.id → P (store p id d))
      → P (send_on p id c io).1
  unfolding send_on
  send_on_cases c io same write =
      if_cases Q (not c.is_connected) (λ _. same)
        λ _.
          if_cases Q (not io.deadline_set) (λ _. same)
            λ _. elim (Option-cases io.moved) [
              | inl e ↦ rw e (write _ refl)
              | inr (n, e) ↦ rw e (write _ refl)
            ]
    where
      Q : Result Error Unit × ConnectionPool → Type ℓ
      Q r = P r.1

  receive_on_cases :
      (c : Connection) (io : Io)
      → P p
      → ((d : Connection) → d.id ≡ c.id → P (store p id d))
      → P (receive_on p id c io).1
  unfolding receive_on
  receive_on_cases c io same write =
      if_cases Q (not c.is_connected) (λ _. same)
        λ _.
          if_cases Q (not io.deadline_set) (λ _. same)
            λ _. elim (Option-cases io.moved) [
              | inl e ↦ rw e (write _ refl)
              | inr (n, e) ↦ rw e (write _ refl)
            ]
    where
      Q : Result Error ℕ × ConnectionPool → Type ℓ
      Q r = P r.1

  ping_on_cases :
      (c : Connection) (start : ℕ) (write read : Io)
      → P p
      → ((d : Connection) → d.id ≡ c.id → P (store p id d))
      → P (ping_on p id c start write read).1
  unfolding ping_on
  ping_on_cases c start write read same put =
      if_cases Q (not c.is_connected) (λ _. same)
        λ _.
          if_cases Q (not write.deadline_set) (λ _. same)
            λ _. elim (Option-cases write.moved) [
              | inl e ↦ rw e (put _ refl)
              | inr (n, e) ↦ rw e (
                  if_cases Q (not read.deadline_set) (λ _. same)
                    λ _. elim (Option-cases read.moved) [
                      | inl e ↦ rw e (put _ refl)
                      | inr (n, e) ↦ rw e (put _ refl)
                    ])
            ]
    where
      Q : Result Error ℤ × ConnectionPool → Type ℓ
      Q r = P r.1

  pub send_cases :
      (io : Io)
      → P p
      → ((c d : Connection) → get_connection p id ≡ some c → d.id ≡ c.id → P (store p id d))
      → P (send p id io).1
  unfolding send
  send_cases io same write = elim (Option-cases (get_connection p id)) [
    | inl e ↦ rw (e, send) same
    | inr (c, e) ↦ rw (e, send) (send_on_cases c io same (λ d. write c d e))
  ]

  pub receive_cases :
      (io : Io)
      → P p
      → ((c d : Connection) → get_connection p id ≡ some c → d.id ≡ c.id → P (store p id d))
      → P (receive p id io).1
  unfolding receive
  receive_cases io same write = elim (Option-cases (get_connection p id)) [
    | inl e ↦ rw (e, receive) same
    | inr (c, e) ↦ rw (e, receive) (receive_on_cases c io same (λ d. write c d e))
  ]

  pub ping_cases :
      (start : ℕ) (write read : Io)
      → P p
      → ((c d : Connection) → get_connection p id ≡ some c → d.id ≡ c.id → P (store p id d))
      → P (ping p id start write read).1
  unfolding ping
  ping_cases start write read same put = elim (Option-cases (get_connection p id)) [
    | inl e ↦ rw (e, ping) same
    | inr (c, e) ↦ rw (e, ping) (ping_on_cases c start write read same (λ d. put c d e))
  ]
