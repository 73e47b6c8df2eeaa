-- ===== src/Tests/Manager.antt =====
-- src/internal/vpn/manager.go and src/internal/vpn/interface.go, with parsers that know one subnet.
use Prim.Native.String.{String}
use peer_mesh.Prelude.{◌≡◌, ◌≢◌, refl, true, false, Option, some, none, [], ◌∷◌, ok, fails, returns}
use peer_mesh.Prelude.Int.{pos}
use peer_mesh.Net.{Ip, Subnet}
use peer_mesh.Vpn.Interface.{linux, darwin, open_interface}
use peer_mesh.Vpn.Interface.Closed.{open_fails}
use peer_mesh.Vpn.Manager.{
  Manager, ManagerConfig, not_running, register_default_handlers, new_manager, start, stop,
  write_packet, allocate_peer_ip, manager_runs,
}
use peer_mesh.Vpn.Manager.LocalIp.{Starts, new_manager-Starts}
use peer_mesh.Vpn.Manager.Running
use peer_mesh.Vpn.Manager.Running.{Reach-stays_down}
use peer_mesh.Vpn.Packet.{new_packet_processor}

abbrev subnet : Subnet
subnet = record { ip = 10 ∷ 0 ∷ 0 ∷ 0 ∷ []; mask = 255 ∷ 255 ∷ 255 ∷ 0 ∷ [] }

abbrev parse_cidr : String → Option Subnet
parse_cidr s = some subnet

abbrev parse_ip : String → Option Ip
parse_ip s = some (10 ∷ 0 ∷ 0 ∷ 7 ∷ [])

abbrev config : ManagerConfig
config = record { subnet_cidr = "10.0.0.0/24"; local_ip = ""; mtu = pos 0 }

-- The manager of that configuration: it takes 10.0.0.1 for itself, so the gateway is 10.0.0.2.
abbrev first : Manager
first = register_default_handlers (record {
  interface = record {
    name = "peermesh0";
    ip = 10 ∷ 0 ∷ 0 ∷ 1 ∷ [];
    netmask = 255 ∷ 255 ∷ 255 ∷ 0 ∷ [];
    gateway = some (10 ∷ 0 ∷ 0 ∷ 2 ∷ []);
    mtu = pos 1500;
    is_open = false;
    read_chan = [];
    write_chan = [];
    chans_closed = false;
  };
  allocator = record {
    subnet = subnet;
    allocated = (10 ∷ 0 ∷ 0 ∷ 1 ∷ [], true) ∷ [];
    next_ip = 10 ∷ 0 ∷ 0 ∷ 2 ∷ [];
  };
  processor = new_packet_processor (pos 2048);
  subnet = subnet;
  local_ip = 10 ∷ 0 ∷ 0 ∷ 1 ∷ [];
  gateway = 10 ∷ 0 ∷ 0 ∷ 2 ∷ [];
  is_running = false;
  stop_closed = false;
  packet_handlers = [];
})

first_new : new_manager parse_cidr parse_ip config ≡ ok first
unfolding manager_runs
first_new = refl

-- The gateway is the next address that the new manager gives to a peer.
gateway_run : (allocate_peer_ip first).0 ≡ ok (10 ∷ 0 ∷ 0 ∷ 2 ∷ [])
unfolding manager_runs
gateway_run = refl

new_manager-Starts_example : Starts first.subnet first
new_manager-Starts_example = new_manager-Starts parse_cidr parse_ip config first first_new

Reach-stays_down_example :
    ((start linux first).1.is_running ≡ false)
    × ((start darwin (start linux first).1).0 ≢ ok tt)
    × (write_packet (start linux first).1 [] ≡ (fails not_running, (start linux first).1))
    × (stop (start linux first).1 ≡ (returns tt, (start linux first).1))
Reach-stays_down_example =
    Reach-stays_down first.subnet first (start linux first).1 darwin []
      (new_manager-Starts parse_cidr parse_ip config first first_new)
      (Running.next Running.here (Running.starts linux))

open_fails_example :
    ((open_interface linux first.interface).0 ≢ none)
    × ((open_interface linux first.interface).1 ≡ first.interface)
open_fails_example = open_fails linux first.interface
