-- ===== src/Vpn/Interface.antt =====
-- src/internal/vpn/interface.go: the TUN interface. Its two channels hold 100 packets each. The goroutine
-- packetProcessor is an empty function in the source, so nothing else reads or fills them.
pub mod Closed
use peer_mesh.Prelude.{
  ℕ, ◌+◌, Bool, true, false, not, Option, none, some, List, [], ◌∷◌, ◌++◌, length, ltb, ◌==◌,
  string_eq, if◌then◌else◌, Result, ok, err, Outcome, returns, fails, panics,
}
use Prim.Native.String.{String}
use peer_mesh.Prelude.Int.{ℤ, pos, ltb_ℤ}
use peer_mesh.Net.{Ip}

-- A nil slice is none. The file is never set: no code opens one.
pub record Interface : Type 0 where
  pub name : String
  pub ip : Ip
  pub netmask : List ℕ
  pub gateway : Option Ip
  pub mtu : ℤ
  pub is_open : Bool
  pub read_chan : List (List ℕ)
  pub write_chan : List (List ℕ)
  pub chans_closed : Bool

pub record InterfaceConfig : Type 0 where
  pub name : String
  pub ip : Option Ip
  pub netmask : Option (List ℕ)
  pub gateway : Option Ip
  pub mtu : ℤ

pub data Error : Type 0 where
  ip_required already_open unsupported_os linux_not_implemented darwin_not_implemented
        windows_not_implemented interface_not_open no_packet write_buffer_full :
      Error

-- net.CIDRMask(24, 32)
abbrev pub mask24 : List ℕ
mask24 = 255 ∷ 255 ∷ 255 ∷ 0 ∷ []

unfoldable pub new_interface : InterfaceConfig → Result Error Interface
new_interface config = elim config.ip [
  | none ↦ err ip_required
  | some ip ↦ ok (record {
    name = if config.name == "" then "peermesh0" else config.name;
    ip = ip;
    netmask = elim config.netmask [ none ↦ mask24 | some m ↦ m ];
    gateway = config.gateway;
    mtu = if ltb_ℤ (pos 0) config.mtu then config.mtu else pos 1500;
    is_open = false;
    read_chan = [];
    write_chan = [];
    chans_closed = false;
  })
]

-- openLinux, openDarwin and openWindows, and the switch on runtime.GOOS.
pub data Os : Type 0 where
  linux darwin windows other : Os

unfoldable pub open_linux : Interface → Option Error
open_linux i = some linux_not_implemented

unfoldable pub open_darwin : Interface → Option Error
open_darwin i = some darwin_not_implemented

unfoldable pub open_windows : Interface → Option Error
open_windows i = some windows_not_implemented

unfoldable pub open_on : Os → Interface → Option Error
unfolding open_linux open_darwin open_windows
open_on linux i = open_linux i
open_on darwin i = open_darwin i
open_on windows i = open_windows i
open_on other i = some unsupported_os

unfoldable pub open_interface : Os → Interface → Option Error × Interface
unfolding open_on
open_interface os i =
    if i.is_open
    then (some already_open, i)
    else elim (open_on os i) [ some e ↦ (some e, i) | none ↦ (none, record i { is_open = true }) ]

-- `close` of a closed channel panics, and so does a send on one; a receive on a closed channel that is
-- drained returns a nil packet.
unfoldable pub close_interface : Interface → Outcome Error Unit × Interface
close_interface i =
    if not i.is_open
    then (returns tt, i)
    else if i.chans_closed
    then (panics, record i { is_open = false })
    else (returns tt, record i { is_open = false; chans_closed = true })

unfoldable pub read_interface : Interface → Result Error (List ℕ) × Interface
read_interface i = if not i.is_open then (err interface_not_open, i) else elim i.read_chan [
  | [] ↦ (if i.chans_closed then ok [] else err no_packet, i)
  | packet ∷ rest ↦ (ok packet, record i { read_chan = rest })
]

unfoldable pub write_interface : Interface → List ℕ → Outcome Error Unit × Interface
write_interface i packet =
    if not i.is_open
    then (fails interface_not_open, i)
    else if i.chans_closed
    then (panics, i)
    else if ltb (length i.write_chan) 100
    then (returns tt, record i { write_chan = i.write_chan ++ packet ∷ [] })
    else (fails write_buffer_full, i)

-- What a run of the functions above opens.
unfoldable pub interface_runs : ℕ
unfolding new_interface open_interface close_interface read_interface write_interface
interface_runs = 0
