-- ===== src/Vpn/Manager.antt =====
-- src/internal/vpn/manager.go and src/internal/vpn/handlers.go. The texts of a configuration are read by
-- net.ParseCIDR and net.ParseIP, which are parameters. The handlers log and return nil. The goroutine
-- that Start begins is `poll`, one round of its loop.
pub mod Running
pub mod Gateway
pub mod LocalIp
use Prim.Native.String.{String}
use peer_mesh.Prelude.{
  ℕ, Bool, true, false, not, Option, none, some, List, [], ◌∷◌, length, ◌==◌, string_eq, nat_eq,
  ◌>>=◌, map_err, or_fail, if◌then◌else◌, Result, ok, err, Outcome, returns, fails, panics,
}
use peer_mesh.Prelude.Int.{ℤ, pos}
use peer_mesh.Prelude.Assoc.{Assoc, insert}
use peer_mesh.Net.{Ip, Subnet, equal}
use peer_mesh.Vpn.Allocator
use peer_mesh.Vpn.Allocator.{
  IpAllocator, new_ip_allocator, allocate_ip, allocate_specific_ip, release_ip, gateway_ip,
  increment_ip, available_count, allocated_ips, allocator_runs,
}
use peer_mesh.Vpn.Packet
use peer_mesh.Vpn.Packet.{
  Packet, PacketType, PacketHandler, PacketProcessor, icmp, tcp, udp, code, new_packet_processor,
  register_handler, process_packet, packet_runs,
}
use peer_mesh.Vpn.Interface
use peer_mesh.Vpn.Interface.{
  Interface, InterfaceConfig, Os, new_interface, open_interface, close_interface, read_interface,
  write_interface, interface_runs,
}

pub record Manager : Type 0 where
  pub interface : Interface
  pub allocator : IpAllocator
  pub processor : PacketProcessor
  pub subnet : Subnet
  pub local_ip : Ip
  pub gateway : Ip
  pub is_running : Bool
  pub stop_closed : Bool
  pub packet_handlers : Assoc ℕ PacketHandler

pub record ManagerConfig : Type 0 where
  pub subnet_cidr : String
  pub local_ip : String
  pub mtu : ℤ

pub data Error : Type 0 where
  invalid_subnet invalid_local_ip already_running not_running : Error
  allocator_failed local_ip_failed : Allocator.Error → Error
  interface_failed : Interface.Error → Error

unfoldable pub icmp_handler : PacketHandler
icmp_handler packet = none

unfoldable pub tcp_handler : PacketHandler
tcp_handler packet = none

unfoldable pub udp_handler : PacketHandler
udp_handler packet = none

unfoldable pub default_handler : PacketHandler
default_handler packet = none

unfoldable pub register_packet_handler : Manager → PacketType → PacketHandler → Manager
register_packet_handler m t h = record m {
  packet_handlers = insert (code t) h m.packet_handlers;
  processor = register_handler m.processor t h;
}

unfoldable pub register_default_handlers : Manager → Manager
register_default_handlers m =
    register_packet_handler
      (register_packet_handler (register_packet_handler m icmp icmp_handler) tcp tcp_handler) udp
      udp_handler

-- An allocation with its error as the manager's, and the allocator after it.
abbrev claim : Ip → Result Allocator.Error Unit × IpAllocator → Result Error (Ip × IpAllocator)
claim ip (ok u, a) = ok (ip, a)
claim ip (err e, a) = err (local_ip_failed e)

abbrev take_next : Result Allocator.Error Ip × IpAllocator → Result Error (Ip × IpAllocator)
take_next (ok ip, a) = ok (ip, a)
take_next (err e, a) = err (local_ip_failed e)

-- The gateway is the first host, or the one behind the local address if that is the first.
unfoldable pub choose_gateway : IpAllocator → Ip → Ip
choose_gateway a local_ip =
    if equal (gateway_ip a) local_ip then increment_ip local_ip else gateway_ip a

abbrev pub interface_config : ManagerConfig → Subnet → Ip → Ip → InterfaceConfig
interface_config config subnet local_ip gateway = record {
  name = "peermesh0";
  ip = some local_ip;
  netmask = some subnet.mask;
  gateway = some gateway;
  mtu = config.mtu;
}

-- The gateway, the interface and the manager around them.
unfoldable pub assemble : ManagerConfig → Subnet → Ip × IpAllocator → Result Error Manager
assemble config subnet (local_ip, allocator) = do
  let gateway = choose_gateway allocator local_ip
  interface ←
      map_err interface_failed (new_interface (interface_config config subnet local_ip gateway))
  ok (
      register_default_handlers (record {
        interface = interface;
        allocator = allocator;
        processor = new_packet_processor (pos 2048);
        subnet = subnet;
        local_ip = local_ip;
        gateway = gateway;
        is_running = false;
        stop_closed = false;
        packet_handlers = [];
      }))

module _ (parse_cidr : String → Option Subnet) (parse_ip : String → Option Ip) where
  -- The local address, configured or the next free one, and the allocator after it is taken.
  unfoldable pub choose_local_ip : IpAllocator → String → Result Error (Ip × IpAllocator)
  choose_local_ip a configured =
      if not (configured == "")
      then (do
        ip ← or_fail (parse_ip configured) invalid_local_ip
        claim ip (allocate_specific_ip a ip))
      else take_next (allocate_ip a)

  -- NewManager behind the parsed subnet.
  unfoldable pub manager_on : ManagerConfig → Subnet → Result Error Manager
  manager_on config subnet = do
    allocator ← map_err allocator_failed (new_ip_allocator (some subnet))
    chosen ← choose_local_ip allocator config.local_ip
    assemble config subnet chosen

  unfoldable pub new_manager : ManagerConfig → Result Error Manager
  unfolding manager_on
  new_manager config = do
    subnet ← or_fail (parse_cidr config.subnet_cidr) invalid_subnet
    manager_on config subnet

unfoldable pub start : Os → Manager → Result Error Unit × Manager
start os m =
    if m.is_running
    then (err already_running, m)
    else let (failed, i) = open_interface os m.interface in
      elim failed [
        | some e ↦ (err (interface_failed e), record m { interface = i })
        | none ↦ (ok tt, record m { interface = i; is_running = true })
      ]

abbrev stopped : Outcome Interface.Error Unit → Outcome Error Unit
stopped (returns u) = returns u
stopped (fails e) = fails (interface_failed e)
stopped panics = panics

-- A second close of stopChan panics.
unfoldable pub stop : Manager → Outcome Error Unit × Manager
stop m =
    if not m.is_running
    then (returns tt, m)
    else if m.stop_closed
    then (panics, record m { is_running = false })
    else let (closed, i) = close_interface m.interface in
      (stopped closed, record m { is_running = false; stop_closed = true; interface = i })

unfoldable pub allocate_peer_ip : Manager → Result Allocator.Error Ip × Manager
allocate_peer_ip m = let (r, a) = allocate_ip m.allocator in (r, record m { allocator = a })

unfoldable pub release_peer_ip : Manager → Ip → Result Allocator.Error Unit × Manager
release_peer_ip m ip = let (r, a) = release_ip m.allocator ip in (r, record m { allocator = a })

-- A round of the loop of `run`: the loop ends when stopChan is closed, finds no packet, or processes
-- one, with the error that it logs.
pub data Round : Type 0 where
  ended idle : Round
  processed : Option Packet.Error → Round

abbrev round_of : PacketProcessor → Result Interface.Error (List ℕ) → Round
round_of p (err e) = idle
round_of p (ok packet) = processed (process_packet p packet)

unfoldable pub poll : Manager → Round × Manager
poll m =
    if m.stop_closed
    then (ended, m)
    else let (r, i) = read_interface m.interface in
      (round_of m.processor r, record m { interface = i })

unfoldable pub write_packet : Manager → List ℕ → Outcome Error Unit × Manager
write_packet m packet =
    if not m.is_running
    then (fails not_running, m)
    else let (r, i) = write_interface m.interface packet in (stopped r, record m { interface = i })

pub record Stats : Type 0 where
  pub running : Bool
  pub local_ip : Ip
  pub gateway_ip : Ip
  pub subnet : Subnet
  pub available_ips : ℤ
  pub allocated_ips : ℕ

unfoldable pub get_stats : Manager → Stats
get_stats m = record {
  running = m.is_running;
  local_ip = m.local_ip;
  gateway_ip = m.gateway;
  subnet = m.subnet;
  available_ips = available_count m.allocator;
  allocated_ips = length (allocated_ips m.allocator);
}

-- What a run of the functions above opens.
unfoldable pub manager_runs : ℕ
unfolding allocator_runs gateway_ip packet_runs interface_runs register_packet_handler
    register_default_handlers choose_gateway assemble choose_local_ip manager_on new_manager start
    stop allocate_peer_ip release_peer_ip poll write_packet
manager_runs = 0
