-- ===== src/Peer/Pool.antt =====
-- src/internal/peer/connection.go: ConnectionPool. The pool's and a connection's mutex make each method
-- one step. Of package net and the clock a method sees results, which are its arguments; a net.Conn
-- is a number, and `closed` lists the ones that the pool has closed.
pub mod Connections
pub mod Invariant
pub mod Replies
use peer_mesh.Prelude.{
  ℕ, zero, suc, ◌+◌, ◌*◌, ◌%◌, ◌^◌, Bool, true, false, not, ◌&&◌, Option, none, some, List, [], ◌∷◌,
  ◌++◌, length, ltb, leb, ◌==◌, string_eq, if◌then◌else◌, Result, ok, err,
}
use Prim.Native.String.{String}
use peer_mesh.Prelude.Int.{ℤ, pos, negsuc, sub_ℕ, ltb_ℤ}
use peer_mesh.Prelude.Assoc.{Assoc, lookup, insert, erase}

-- A byte counter is an int64, kept as its bit pattern; times and durations are nanoseconds.
pub record Connection : Type 0 where
  pub id : String
  pub remote_addr : String
  pub local_addr : String
  pub conn : ℕ
  pub is_connected : Bool
  pub last_seen : ℕ
  pub bytes_sent : ℕ
  pub bytes_received : ℕ
  pub latency : ℤ

pub record PoolConfig : Type 0 where
  pub max_connections : ℤ
  pub timeout : ℤ
  pub keep_alive : ℤ

pub record ConnectionPool : Type 0 where
  pub connections : Assoc String Connection
  pub config : PoolConfig
  pub closed : List ℕ

pub data Error : Type 0 where
  pool_full dial_failed not_found no_connection not_active deadline_failed send_failed
        receive_failed :
      Error

abbrev is_zero : ℤ → Bool
is_zero (pos zero) = true
is_zero d = false

abbrev pub second : ℕ
second = 1_000_000_000

unfoldable pub new_connection_pool : PoolConfig → ConnectionPool
new_connection_pool c = record {
  connections = [];
  config = record {
    max_connections = if ltb_ℤ (pos 0) c.max_connections then c.max_connections else pos 100;
    timeout = if is_zero c.timeout then pos (30 * second) else c.timeout;
    keep_alive = if is_zero c.keep_alive then pos (60 * second) else c.keep_alive;
  };
  closed = [];
}

unfoldable pub get_connection : ConnectionPool → String → Option Connection
unfolding lookup
get_connection p id = lookup id p.connections

-- What net.DialTimeout returns.
pub record Dialed : Type 0 where
  pub conn : ℕ
  pub remote_addr : String
  pub local_addr : String

-- A connection in the map and connected.
abbrev pub is_live : Option Connection → Bool
is_live none = false
is_live (some c) = c.is_connected

abbrev pub fresh_connection : String → Dialed → ℕ → Connection
fresh_connection id d now = record {
  id = id;
  remote_addr = d.remote_addr;
  local_addr = d.local_addr;
  conn = d.conn;
  is_connected = true;
  last_seen = now;
  bytes_sent = 0;
  bytes_received = 0;
  latency = pos 0;
}

unfoldable pub dial_peer :
    ConnectionPool → String → Option Dialed → ℕ → Result Error Connection × ConnectionPool
dial_peer p id none now = (err dial_failed, p)
dial_peer p id (some d) now =
    let c = fresh_connection id d now in
    (ok c, record p { connections = insert id c p.connections })

-- The guards of Connect behind the look into the map.
unfoldable pub connect_new :
    ConnectionPool → String → Option Dialed → ℕ → Result Error Connection × ConnectionPool
unfolding dial_peer
connect_new p id dialed now =
    if ltb_ℤ (pos (length p.connections)) p.config.max_connections
    then dial_peer p id dialed now
    else (err pool_full, p)

unfoldable pub connect_found :
    ConnectionPool
    → String
    → Option Connection
    → Option Dialed
    → ℕ
    → Result Error Connection × ConnectionPool
connect_found p id none dialed now = connect_new p id dialed now
connect_found p id (some c) dialed now =
    if c.is_connected then (ok c, p) else connect_new p id dialed now

unfoldable pub connect :
    ConnectionPool → String → Option Dialed → ℕ → Result Error Connection × ConnectionPool
connect p id dialed now = connect_found p id (get_connection p id) dialed now

unfoldable pub disconnect_found :
    ConnectionPool → String → Option Connection → Result Error Unit × ConnectionPool
disconnect_found p id none = (err not_found, p)
disconnect_found p id (some c) =
    (ok tt, record p { connections = erase id p.connections; closed = c.conn ∷ p.closed })

unfoldable pub disconnect : ConnectionPool → String → Result Error Unit × ConnectionPool
disconnect p id = disconnect_found p id (get_connection p id)

abbrev pub live_only : Assoc String Connection → List Connection
live_only [] = []
live_only ((id, c) ∷ m) = if c.is_connected then c ∷ live_only m else live_only m

unfoldable pub get_all_connections : ConnectionPool → List Connection
get_all_connections p = live_only p.connections

-- A pointer that the map holds is written through.
abbrev pub store : ConnectionPool → String → Connection → ConnectionPool
store p id c = record p { connections = insert id c p.connections }

-- Whether a deadline could be set, the bytes moved or the failure, and the clock afterwards.
pub record Io : Type 0 where
  pub deadline_set : Bool
  pub moved : Option ℕ
  pub now : ℕ

unfoldable pub send_on :
    ConnectionPool → String → Connection → Io → Result Error Unit × ConnectionPool
send_on p id c io =
    if not c.is_connected
    then (err not_active, p)
    else if not io.deadline_set
    then (err deadline_failed, p)
    else elim io.moved [
      | none ↦ (err send_failed, store p id (record c { is_connected = false }))
      | some n ↦ (
        ok tt,
        store p id (record c { bytes_sent = (c.bytes_sent + n) % 2 ^ 64; last_seen = io.now }),
      )
    ]

unfoldable pub send : ConnectionPool → String → Io → Result Error Unit × ConnectionPool
send p id io = elim (get_connection p id) [
  | none ↦ (err no_connection, p)
  | some c ↦ send_on p id c io
]

unfoldable pub receive_on :
    ConnectionPool → String → Connection → Io → Result Error ℕ × ConnectionPool
receive_on p id c io =
    if not c.is_connected
    then (err not_active, p)
    else if not io.deadline_set
    then (err deadline_failed, p)
    else elim io.moved [
      | none ↦ (err receive_failed, store p id (record c { is_connected = false }))
      | some n ↦ (
        ok n,
        store p id
            (record c { bytes_received = (c.bytes_received + n) % 2 ^ 64; last_seen = io.now }),
      )
    ]

unfoldable pub receive : ConnectionPool → String → Io → Result Error ℕ × ConnectionPool
receive p id io = elim (get_connection p id) [
  | none ↦ (err no_connection, p)
  | some c ↦ receive_on p id c io
]

-- Ping writes, then reads; the round trip is measured from `start` to the reader's clock.
unfoldable pub ping_on :
    ConnectionPool → String → Connection → ℕ → Io → Io → Result Error ℤ × ConnectionPool
ping_on p id c start write read =
    if not c.is_connected
    then (err not_active, p)
    else if not write.deadline_set
    then (err deadline_failed, p)
    else elim write.moved [
      | none ↦ (err send_failed, store p id (record c { is_connected = false }))
      | some _ ↦ if not read.deadline_set then (err deadline_failed, p) else elim read.moved [
        | none ↦ (err receive_failed, store p id (record c { is_connected = false }))
        | some _ ↦ (
          ok (sub_ℕ read.now start),
          store p id (record c { latency = sub_ℕ read.now start; last_seen = read.now }),
        )
      ]
    ]

unfoldable pub ping : ConnectionPool → String → ℕ → Io → Io → Result Error ℤ × ConnectionPool
ping p id start write read = elim (get_connection p id) [
  | none ↦ (err no_connection, p)
  | some c ↦ ping_on p id c start write read
]

unfoldable pub is_connected : ConnectionPool → String → Bool
is_connected p id = is_live (get_connection p id)

pub record Stats : Type 0 where
  pub total_connections : ℕ
  pub active_connections : ℕ
  pub max_connections : ℤ
  pub total_bytes_sent : ℕ
  pub total_bytes_received : ℕ
  pub timeout : ℤ
  pub keep_alive : ℤ

abbrev pub tally_one : Stats → Connection → Stats
tally_one s c = record s {
  active_connections = if c.is_connected then s.active_connections + 1 else s.active_connections;
  total_bytes_sent = (s.total_bytes_sent + c.bytes_sent) % 2 ^ 64;
  total_bytes_received = (s.total_bytes_received + c.bytes_received) % 2 ^ 64;
}

-- The loop of GetStats over the map.
abbrev pub tally : Stats → Assoc String Connection → Stats
tally s [] = s
tally s ((id, c) ∷ m) = tally (tally_one s c) m

unfoldable pub get_stats : ConnectionPool → Stats
get_stats p =
    tally
      (record {
        total_connections = length p.connections;
        active_connections = 0;
        max_connections = p.config.max_connections;
        total_bytes_sent = 0;
        total_bytes_received = 0;
        timeout = p.config.timeout;
        keep_alive = p.config.keep_alive;
      })
      p.connections

-- now.Sub(conn.LastSeen) > p.config.KeepAlive
unfoldable pub is_stale : PoolConfig → ℕ → Connection → Bool
is_stale config now c = ltb_ℤ config.keep_alive (sub_ℕ now c.last_seen)

unfoldable pub to_remove : PoolConfig → ℕ → Assoc String Connection → List String
to_remove config now [] = []
to_remove config now ((id, c) ∷ m) =
    if is_stale config now c then id ∷ to_remove config now m else to_remove config now m

unfoldable pub remove_one : ConnectionPool → String → Option Connection → ConnectionPool
remove_one p id none = p
remove_one p id (some c) = record p {
  connections = erase id p.connections;
  closed = c.conn ∷ p.closed;
}

unfoldable pub remove_all : ConnectionPool → List String → ConnectionPool
unfolding remove_one
remove_all p [] = p
remove_all p (id ∷ ids) = remove_all (remove_one p id (get_connection p id)) ids

unfoldable pub cleanup : ConnectionPool → ℕ → ConnectionPool
cleanup p now = remove_all p (to_remove p.config now p.connections)

abbrev pub handles : Assoc String Connection → List ℕ
handles [] = []
handles ((id, c) ∷ m) = c.conn ∷ handles m

unfoldable pub close : ConnectionPool → ConnectionPool
close p = record p { connections = []; closed = handles p.connections ++ p.closed }

-- What a run of the methods opens.
unfoldable pub pool_runs : ℕ
unfolding lookup insert erase new_connection_pool get_connection dial_peer connect_new connect_found
    connect disconnect_found disconnect get_all_connections send_on send receive_on receive ping_on
    ping is_connected get_stats is_stale to_remove remove_one remove_all cleanup close
pool_runs = 0
