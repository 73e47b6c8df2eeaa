-- ===== src/Peer/Pool/Invariant.antt =====
-- The pool after any history of calls.
use Prim.Native.String.{String}
use peer_mesh.Prelude.{
  ℕ, ◌≡◌, refl, ◌∙◌, Option, none, some, List, [], ◌∷◌, length, arith, if_cases, string_eq, Result,
}
use peer_mesh.Prelude.Int.{pos, ltb_ℤ, ◌≤ℤ◌}
use peer_mesh.Prelude.Assoc.{
  erase, Distinct, erase-Distinct, insert-Distinct, length-insert, length-erase,
}
use peer_mesh.Peer.Pool.{
  Connection, ConnectionPool, PoolConfig, Error, Io, Dialed, new_connection_pool, get_connection,
  store, connect, connect_found, connect_new, disconnect, disconnect_found, send, receive, ping,
  remove_one, remove_all, cleanup, close, fresh_connection,
}
use peer_mesh.Peer.Pool.Connections.{
  Keyed, insert-Keyed, erase-Keyed, lookup-Keyed, send_cases, receive_cases, ping_cases,
}

pub data Op : Type 0 where
  connects : String → Option Dialed → ℕ → Op
  disconnects : String → Op
  sends receives : String → Io → Op
  pings : String → ℕ → Io → Io → Op
  cleans : ℕ → Op
  closes : Op

unfoldable pub step : ConnectionPool → Op → ConnectionPool
step p (connects id dialed now) = (connect p id dialed now).1
step p (disconnects id) = (disconnect p id).1
step p (sends id io) = (send p id io).1
step p (receives id io) = (receive p id io).1
step p (pings id start write read) = (ping p id start write read).1
step p (cleans now) = cleanup p now
step p closes = close p

unfoldable pub run : ConnectionPool → List Op → ConnectionPool
run p [] = p
run p (op ∷ ops) = run (step p op) ops

-- One entry for each peer, under the connection's own ID, and no more of them than configured.
pub record IsValid (config : PoolConfig) (p : ConnectionPool) : Type 0 where
  pub distinct : Distinct p.connections
  pub keyed : Keyed p.connections
  pub settings : p.config ≡ config
  pub bounded : pos (length p.connections) ≤ℤ p.config.max_connections

module _ {s : PoolConfig} where
  store-IsValid :
      (p : ConnectionPool) (id : String) (c d : Connection)
      → IsValid s p
      → get_connection p id ≡ some c
      → d.id ≡ c.id
      → IsValid s (store p id d)
  unfolding get_connection
  store-IsValid p id c d v h e = record {
    distinct = insert-Distinct id d p.connections v.distinct;
    keyed = insert-Keyed id d p.connections (e ∙ lookup-Keyed id p.connections c v.keyed h) v.keyed;
    settings = v.settings;
    bounded = ground (arith, length-insert id d p.connections);
  }

  erase-IsValid :
      (p : ConnectionPool) (id : String) (hs : List ℕ)
      → IsValid s p
      → IsValid s (record p { connections = erase id p.connections; closed = hs })
  erase-IsValid p id hs v = record {
    distinct = erase-Distinct id p.connections v.distinct;
    keyed = erase-Keyed id p.connections v.keyed;
    settings = v.settings;
    bounded = ground (arith, length-erase id p.connections v.distinct);
  }

  connect_new-IsValid :
      (p : ConnectionPool) (id : String) (dialed : Option Dialed) (now : ℕ)
      → IsValid s p
      → IsValid s (connect_new p id dialed now).1
  unfolding connect_new
  connect_new-IsValid p id none now v =
      if_cases (λ (r : Result Error Connection × ConnectionPool). IsValid s r.1)
        (ltb_ℤ (pos (length p.connections)) p.config.max_connections) (λ _. v) (λ _. v)
  connect_new-IsValid p id (some d) now v =
      if_cases (λ (r : Result Error Connection × ConnectionPool). IsValid s r.1)
        (ltb_ℤ (pos (length p.connections)) p.config.max_connections)
        (λ room. record {
          distinct = insert-Distinct id (fresh_connection id d now) p.connections v.distinct;
          keyed = insert-Keyed id (fresh_connection id d now) p.connections refl v.keyed;
          settings = v.settings;
          bounded = ground (arith, length-insert id (fresh_connection id d now) p.connections);
        })
        (λ _. v)

  connect_found-IsValid :
      (p : ConnectionPool) (id : String) (found : Option Connection) (dialed : Option Dialed)
      (now : ℕ)
      → IsValid s p
      → IsValid s (connect_found p id found dialed now).1
  unfolding connect_found
  connect_found-IsValid p id none dialed now v = connect_new-IsValid p id dialed now v
  connect_found-IsValid p id (some c) dialed now v =
      if_cases (λ (r : Result Error Connection × ConnectionPool). IsValid s r.1) c.is_connected
        (λ _. v) (λ _. connect_new-IsValid p id dialed now v)

  disconnect_found-IsValid :
      (p : ConnectionPool) (id : String) (found : Option Connection)
      → IsValid s p
      → IsValid s (disconnect_found p id found).1
  unfolding disconnect_found
  disconnect_found-IsValid p id none v = v
  disconnect_found-IsValid p id (some c) v = erase-IsValid p id _ v

  remove_one-IsValid :
      (p : ConnectionPool) (id : String) (found : Option Connection)
      → IsValid s p
      → IsValid s (remove_one p id found)
  unfolding remove_one
  remove_one-IsValid p id none v = v
  remove_one-IsValid p id (some c) v = erase-IsValid p id _ v

  remove_all-IsValid :
      (p : ConnectionPool) (ids : List String) → IsValid s p → IsValid s (remove_all p ids)
  unfolding remove_all
  remove_all-IsValid p [] v = v
  remove_all-IsValid p (id ∷ ids) v =
      remove_all-IsValid (remove_one p id (get_connection p id)) ids
        (remove_one-IsValid p id (get_connection p id) v)

  step-IsValid : (p : ConnectionPool) (op : Op) → IsValid s p → IsValid s (step p op)
  unfolding step connect disconnect cleanup close
  step-IsValid p (connects id dialed now) v =
      connect_found-IsValid p id (get_connection p id) dialed now v
  step-IsValid p (disconnects id) v = disconnect_found-IsValid p id (get_connection p id) v
  step-IsValid p (sends id io) v =
      send_cases (IsValid s) p id io v (λ c d. store-IsValid p id c d v)
  step-IsValid p (receives id io) v =
      receive_cases (IsValid s) p id io v (λ c d. store-IsValid p id c d v)
  step-IsValid p (pings id start write read) v =
      ping_cases (IsValid s) p id start write read v (λ c d. store-IsValid p id c d v)
  step-IsValid p (cleans now) v = remove_all-IsValid p _ v
  step-IsValid p closes v = record {
    distinct = tt;
    keyed = tt;
    settings = v.settings;
    bounded = omega (arith, v.bounded);
  }

  run-IsValid_from : (p : ConnectionPool) (ops : List Op) → IsValid s p → IsValid s (run p ops)
  unfolding run
  run-IsValid_from p [] v = v
  run-IsValid_from p (op ∷ ops) v = run-IsValid_from (step p op) ops (step-IsValid p op v)

-- After any history of a new pool, each peer has at most one entry, it stands under its own ID, and
-- the configured maximum is kept.
pub run-IsValid :
    (config : PoolConfig) (ops : List Op)
    → IsValid (new_connection_pool config).config (run (new_connection_pool config) ops)
unfolding new_connection_pool
run-IsValid config ops = run-IsValid_from (new_connection_pool config) ops fresh
  where
    fresh : IsValid (new_connection_pool config).config (new_connection_pool config)
    fresh = record { distinct = tt; keyed = tt; settings = refl; bounded = ground arith }
