-- ===== src/Vpn/Manager/Running.antt =====
-- What a manager can do while no system opens its interface.
use peer_mesh.Prelude.{ℕ, ◌≡◌, ◌≢◌, false, List, arith, ok, returns, fails}
use peer_mesh.Net.{Ip, Subnet}
use peer_mesh.Vpn.Packet.{PacketType, PacketHandler}
use peer_mesh.Vpn.Interface.{Os, linux, darwin, windows, other, open_interface}
use peer_mesh.Vpn.Interface
use peer_mesh.Vpn.Manager.{
  Manager, not_running, start, stop, poll, write_packet, allocate_peer_ip, release_peer_ip,
  register_packet_handler,
}
use peer_mesh.Vpn.Manager.LocalIp.{Starts}

-- A call on the manager, the system chosen at each Start.
pub data Step (m : Manager) : Manager → Type 0 where
  starts : (os : Os) → Step m (start os m).1
  stops : Step m (stop m).1
  polls : Step m (poll m).1
  writes : (packet : List ℕ) → Step m (write_packet m packet).1
  allocates : Step m (allocate_peer_ip m).1
  releases : (ip : Ip) → Step m (release_peer_ip m ip).1
  registers : (t : PacketType) (h : PacketHandler) → Step m (register_packet_handler m t h)

pub data Reach (m : Manager) : Manager → Type 0 where
  here : Reach m m
  next : {n o : Manager} → Reach m n → Step n o → Reach m o

-- Stopped, and the interface shut.
pub record IsDown (m : Manager) : Type 0 where
  pub stopped : m.is_running ≡ false
  pub shut : m.interface.is_open ≡ false

start-fails : (os : Os) (m : Manager) → IsDown m → ((start os m).0 ≢ ok tt) × IsDown (start os m).1
unfolding start open_interface
start-fails linux m d = ground arith
start-fails darwin m d = ground arith
start-fails windows m d = ground arith
start-fails other m d = ground arith

poll-IsDown : (m : Manager) → IsDown m → IsDown (poll m).1
unfolding poll Interface.read_interface
poll-IsDown m d = ground arith

Step-IsDown : {m n : Manager} → Step m n → IsDown m → IsDown n
unfolding stop write_packet allocate_peer_ip release_peer_ip register_packet_handler
Step-IsDown {m} (starts os) d = (start-fails os m d).1
Step-IsDown {m} stops d = ground arith
Step-IsDown {m} polls d = poll-IsDown m d
Step-IsDown {m} (writes packet) d = ground arith
Step-IsDown {m} allocates d = record { stopped = d.stopped; shut = d.shut }
Step-IsDown {m} (releases ip) d = record { stopped = d.stopped; shut = d.shut }
Step-IsDown {m} (registers t h) d = record { stopped = d.stopped; shut = d.shut }

Reach-IsDown : {m n : Manager} → IsDown m → Reach m n → IsDown n
Reach-IsDown d here = d
Reach-IsDown d (next r st) = Step-IsDown st (Reach-IsDown d r)

-- After any calls on a new manager, on whatever system, the manager is not running, Start does not
-- succeed, WritePacket refuses each packet and Stop does nothing.
pub Reach-stays_down :
    (s : Subnet) (m n : Manager) (os : Os) (packet : List ℕ)
    → Starts s m
    → Reach m n
    → (n.is_running ≡ false)
      × ((start os n).0 ≢ ok tt)
      × (write_packet n packet ≡ (fails not_running, n))
      × (stop n ≡ (returns tt, n))
unfolding write_packet stop
Reach-stays_down s m n os packet h r =
    let d : IsDown n = Reach-IsDown (record { stopped = h.stopped; shut = h.shut }) r in
    (d.stopped, (start-fails os n d).0, ground arith, ground arith)
