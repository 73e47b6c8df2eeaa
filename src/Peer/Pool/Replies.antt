-- ===== src/Peer/Pool/Replies.antt =====
-- What callers of the pool see.
use Prim.Native.String.{String}
use peer_mesh.Prelude.{
  ℕ, ◌+◌, ◌≤◌, ◌≡◌, ap, Result, refl, ◌∙◌, Bool, true, false, inl, inr, Option, none, some, List,
  [], ◌∷◌, length, arith, Bool-cases, ◌==◌, string_eq, if◌then◌else◌, ok, err,
}
use peer_mesh.Prelude.Int.{ltb_ℤ, pos, ◌≤ℤ◌}
use peer_mesh.Prelude.Assoc.{
  Assoc, lookup, insert, erase, length-erase, length-pos, Distinct, lookup-insert, lookup-erase,
  beq_self,
}
use peer_mesh.Peer.Pool.{
  Connection, ConnectionPool, PoolConfig, Io, Dialed, Stats, pool_full, not_active, send_failed,
  get_connection, get_all_connections, live_only, is_connected, is_stale, tally, tally_one,
  get_stats, store, connect, connect_found, connect_new, dial_peer, Error, fresh_connection,
  disconnect, disconnect_found, send, send_on, remove_one, remove_all, to_remove, cleanup,
}
use peer_mesh.Peer.Pool.Invariant.{IsValid}

-- The pool after a write to `id` that failed.
abbrev broken : ConnectionPool → String → Connection → ConnectionPool
broken p id c = store p id (record c { is_connected = false })

get_connection-store :
    (p : ConnectionPool) (id : String) (c : Connection) → get_connection (store p id c) id ≡ some c
unfolding get_connection
get_connection-store p id c = rw (lookup-insert, beq_self id) refl

send_lem :
    (p : ConnectionPool) (id : String) (c : Connection) (now : ℕ)
    → get_connection p id ≡ some c
    → c.is_connected ≡ true
    → send p id (record { deadline_set = true; moved = none; now = now })
      ≡ (err send_failed, broken p id c)
unfolding send send_on
send_lem p id c now h live = rw (h, send) (rw live refl)

-- When the write of a Send to a connected peer fails, the error comes back and what follows sees it:
-- the peer is not connected, a second Send is refused as not active, and Connect treats the peer as
-- one without a connection.
pub send_failure :
    (p : ConnectionPool) (id : String) (c : Connection) (now : ℕ) (io : Io)
    → get_connection p id ≡ some c
    → c.is_connected ≡ true
    → let r = send p id (record { deadline_set = true; moved = none; now = now }) in
      (r.0 ≡ err send_failed)
      × (is_connected r.1 id ≡ false)
      × ((send r.1 id io).0 ≡ err not_active)
      × ((dialed : Option Dialed) (later : ℕ)
          → connect r.1 id dialed later ≡ connect_new r.1 id dialed later)
unfolding send send_on is_connected connect connect_found connect_new
send_failure p id c now io h live =
    let dead = get_connection-store p id (record c { is_connected = false }) in
    rw (send_lem p id c now h live)
      (refl, rw dead refl, rw (dead, send) refl, λ dialed later. rw (dead, connect) refl)

connect_new-get :
    (p : ConnectionPool) (id : String) (dialed : Option Dialed) (now : ℕ) (c : Connection)
    → (connect_new p id dialed now).0 ≡ ok c
    → (c.is_connected ≡ true)
      × ((connect_new p id dialed now).1.connections ≡ insert id c p.connections)
unfolding connect_new
connect_new-get p id none now c h = ground arith
connect_new-get p id (some d) now c h = ground arith

abbrev Gets : ConnectionPool → ConnectionPool → String → Connection → Type 0
Gets p q id c =
    (c.is_connected ≡ true)
    × (get_connection q id ≡ some c)
    × ((j : String) → get_connection q j ≡ (if id == j then some c else get_connection p j))

connect_new-Gets :
    (p : ConnectionPool) (id : String) (dialed : Option Dialed) (now : ℕ) (c : Connection)
    → (connect_new p id dialed now).0 ≡ ok c
    → Gets p (connect_new p id dialed now).1 id c
unfolding get_connection
connect_new-Gets p id dialed now c h =
    let (live, e) = connect_new-get p id dialed now c h in
    rw e (live, rw (lookup-insert, beq_self id) refl, λ j. lookup-insert id j c p.connections)

connect_found-get :
    (p : ConnectionPool) (id : String) (found : Option Connection) (dialed : Option Dialed)
    (now : ℕ) (c : Connection)
    → get_connection p id ≡ found
    → (connect_found p id found dialed now).0 ≡ ok c
    → Gets p (connect_found p id found dialed now).1 id c
unfolding connect_found
connect_found-get p id none dialed now c e h = connect_new-Gets p id dialed now c h
connect_found-get p id (some d) dialed now c e h = elim (Bool-cases d.is_connected) [
  | inr dead ↦ rw dead (connect_new-Gets p id dialed now c (rw dead at h))
  | inl live ↦
      let same : d ≡ c = ground (arith, rw live at h) in
      rw live (rw (← same) live, rw (← same) e, λ j. ground (arith, string_eq.beq_iff id j))
]

-- A Connect that succeeds gives a connected connection, which the pool then holds under the peer's
-- ID, and leaves the other peers' entries alone.
pub connect-get :
    (p : ConnectionPool) (id : String) (dialed : Option Dialed) (now : ℕ) (c : Connection)
    → (connect p id dialed now).0 ≡ ok c
    → (c.is_connected ≡ true)
      × (get_connection (connect p id dialed now).1 id ≡ some c)
      × ((j : String)
          → get_connection (connect p id dialed now).1 j
            ≡ (if id == j then some c else get_connection p j))
unfolding connect
connect-get p id dialed now c h = connect_found-get p id (get_connection p id) dialed now c refl h

-- A pool of which an entry was disconnected has room for it.
disconnect-room :
    (settings : PoolConfig) (p : ConnectionPool) (id : String) (c : Connection)
    → IsValid settings p
    → get_connection p id ≡ some c
    → ltb_ℤ (pos (length (erase id p.connections))) p.config.max_connections ≡ true
unfolding get_connection
disconnect-room settings p id c v h =
    ground
      (arith, v.bounded, length-erase id p.connections v.distinct, h, length-pos id p.connections)

abbrev dropped : ConnectionPool → String → Connection → ConnectionPool
dropped p id c = record p { connections = erase id p.connections; closed = c.conn ∷ p.closed }

disconnect_lem :
    (p : ConnectionPool) (id : String) (c : Connection)
    → get_connection p id ≡ some c
    → disconnect p id ≡ (ok tt, dropped p id c)
unfolding disconnect disconnect_found
disconnect_lem p id c h = rw (h, disconnect) refl

gone :
    (p : ConnectionPool) (id : String) (c : Connection) → get_connection (dropped p id c) id ≡ none
unfolding get_connection
gone p id c = rw (lookup-erase, beq_self id) refl

connect_room :
    (q : ConnectionPool) (id : String) (d : Dialed) (now : ℕ)
    → get_connection q id ≡ none
    → ltb_ℤ (pos (length q.connections)) q.config.max_connections ≡ true
    → (connect q id (some d) now).0 ≡ ok (fresh_connection id d now)
unfolding connect connect_found connect_new dial_peer
connect_room q id d now none_found room = rw (none_found, connect) (rw room refl)

-- On a full valid pool, Connect to a peer whose connection in the pool has died is refused as too many
-- connections and changes nothing, whether or not the peer can be dialed. It is the dead entry that
-- is in the way: after a Disconnect of the same peer, which succeeds, the same Connect gives a live
-- connection when the dial succeeds.
pub connect_full_dead :
    (settings : PoolConfig) (p : ConnectionPool) (id : String) (c : Connection) (d : Dialed)
    (now : ℕ)
    → IsValid settings p
    → get_connection p id ≡ some c
    → c.is_connected ≡ false
    → p.config.max_connections ≤ℤ pos (length p.connections)
    → ((dialed : Option Dialed) → connect p id dialed now ≡ (err pool_full, p))
      × ((disconnect p id).0 ≡ ok tt)
      × (fresh : Connection) × ((connect (disconnect p id).1 id (some d) now).0 ≡ ok fresh)
      × (fresh.is_connected ≡ true)
unfolding connect connect_found connect_new
connect_full_dead settings p id c d now v h dead full = (
  λ dialed. rw (h, connect) (rw dead (ground arith)),
  ap (λ (r : Result Error Unit × ConnectionPool). r.0) (disconnect_lem p id c h),
  fresh_connection id d now,
  rw (disconnect_lem p id c h)
      (connect_room (dropped p id c) id d now (gone p id c) (disconnect-room settings p id c v h)),
  refl,
)

-- An entry without what is stale.
abbrev keep_fresh : PoolConfig → ℕ → Option Connection → Option Connection
keep_fresh config now none = none
keep_fresh config now (some c) = if is_stale config now c then none else some c

abbrev listed : String → List String → Bool
listed j [] = false
listed j (id ∷ ids) = if id == j then true else listed j ids

remove_one-get :
    (p : ConnectionPool) (id j : String) (found : Option Connection)
    → lookup id p.connections ≡ found
    → lookup j (remove_one p id found).connections
      ≡ (if id == j then none else lookup j p.connections)
unfolding remove_one
remove_one-get p id j none e = ground (arith, string_eq.beq_iff id j)
remove_one-get p id j (some c) e = lookup-erase id j p.connections

remove_all-get :
    (p : ConnectionPool) (ids : List String) (j : String)
    → lookup j (remove_all p ids).connections
      ≡ (if listed j ids then none else lookup j p.connections)
unfolding remove_all get_connection
remove_all-get p [] j = refl
remove_all-get p (id ∷ ids) j =
    remove_all-get (remove_one p id (lookup id p.connections)) ids j
    ∙ ground (arith, remove_one-get p id j (lookup id p.connections) refl)

listed-absent :
    (s : PoolConfig) (now : ℕ) (m : Assoc String Connection) (j : String)
    → lookup j m ≡ none
    → listed j (to_remove s now m) ≡ false
unfolding to_remove lookup
listed-absent s now [] j h = refl
listed-absent s now ((id, c) ∷ m) j h =
    ground (arith, listed-absent s now m j, string_eq.beq_iff id j)

listed-to_remove :
    (s : PoolConfig) (now : ℕ) (m : Assoc String Connection) (j : String)
    → Distinct m
    → (if listed j (to_remove s now m) then none else lookup j m) ≡ keep_fresh s now (lookup j m)
unfolding to_remove lookup
listed-to_remove s now [] j d = refl
listed-to_remove s now ((id, c) ∷ m) j d =
    ground (arith, listed-to_remove s now m j d.1, listed-absent s now m j, string_eq.beq_iff id j)

-- Cleanup of a valid pool drops the entries that were last seen longer ago than KeepAlive, and no
-- others.
pub get_connection-cleanup :
    (s : PoolConfig) (p : ConnectionPool) (now : ℕ) (id : String)
    → IsValid s p
    → get_connection (cleanup p now) id ≡ keep_fresh p.config now (get_connection p id)
unfolding cleanup get_connection
get_connection-cleanup s p now id v =
    remove_all-get p (to_remove p.config now p.connections) id
    ∙ listed-to_remove p.config now p.connections id v.distinct

tally-active :
    (s : Stats) (m : Assoc String Connection)
    → (tally s m).active_connections ≡ s.active_connections + length (live_only m)
tally-active s [] = omega arith
tally-active s ((id, c) ∷ m) = ground (arith, tally-active (tally_one s c) m)

tally-total :
    (s : Stats) (m : Assoc String Connection) → (tally s m).total_connections ≡ s.total_connections
tally-total s [] = refl
tally-total s ((id, c) ∷ m) = tally-total (tally_one s c) m

live_only-le : (m : Assoc String Connection) → length (live_only m) ≤ length m
live_only-le [] = omega arith
live_only-le ((id, c) ∷ m) = ground (arith, live_only-le m)

-- The counts of GetStats: the active connections are those that GetAllConnections lists, and they
-- are among the entries.
pub get_stats-counts :
    (p : ConnectionPool)
    → ((get_stats p).active_connections ≡ length (get_all_connections p))
      × ((get_stats p).active_connections ≤ (get_stats p).total_connections)
      × ((get_stats p).total_connections ≡ length p.connections)
unfolding get_stats get_all_connections
get_stats-counts p =
    omega
      (arith, tally-active _ p.connections, tally-total _ p.connections, live_only-le p.connections)
