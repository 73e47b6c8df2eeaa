-- ===== src/Vpn/Interface/Closed.antt =====
-- No system opens the interface in this version, so it stays closed.
use peer_mesh.Prelude.{ℕ, ◌≡◌, ◌≢◌, false, none, List, arith, ok, err, fails}
use peer_mesh.Vpn.Interface.{
  Interface, InterfaceConfig, Os, linux, darwin, windows, other, interface_not_open, new_interface,
  open_interface, close_interface, read_interface, write_interface,
}

-- A call of the interface, on some system.
pub data Step (i : Interface) : Interface → Type 0 where
  opens : (os : Os) → Step i (open_interface os i).1
  closes : Step i (close_interface i).1
  reads : Step i (read_interface i).1
  writes : (packet : List ℕ) → Step i (write_interface i packet).1

pub data Reach (i : Interface) : Interface → Type 0 where
  here : Reach i i
  next : {j k : Interface} → Reach i j → Step j k → Reach i k

-- Open fails on every system and leaves the interface as it was.
pub open_fails :
    (os : Os) (i : Interface) → ((open_interface os i).0 ≢ none) × ((open_interface os i).1 ≡ i)
unfolding open_interface
open_fails linux i = ground arith
open_fails darwin i = ground arith
open_fails windows i = ground arith
open_fails other i = ground arith

close-closed : (i : Interface) → i.is_open ≡ false → (close_interface i).1.is_open ≡ false
unfolding close_interface
close-closed i h = ground arith

read-closed : (i : Interface) → i.is_open ≡ false → (read_interface i).1.is_open ≡ false
unfolding read_interface
read-closed i h = ground arith

write-closed :
    (i : Interface) (packet : List ℕ)
    → i.is_open ≡ false
    → (write_interface i packet).1.is_open ≡ false
unfolding write_interface
write-closed i packet h = ground arith

Step-closed : {i j : Interface} → Step i j → i.is_open ≡ false → j.is_open ≡ false
Step-closed {i} (opens os) h = rw ((open_fails os i).1) h
Step-closed {i} closes h = close-closed i h
Step-closed {i} reads h = read-closed i h
Step-closed {i} (writes packet) h = write-closed i packet h

Reaches-closed : {i j : Interface} → i.is_open ≡ false → Reach i j → j.is_open ≡ false
Reaches-closed h here = h
Reaches-closed h (next r st) = Step-closed st (Reaches-closed h r)

new_interface-closed :
    (config : InterfaceConfig) (i : Interface) → new_interface config ≡ ok i → i.is_open ≡ false
unfolding new_interface
new_interface-closed config i h = ground arith

-- A new interface is not open after any calls on any system, and a read or a write is refused.
pub Reach-closed :
    (config : InterfaceConfig) (i j : Interface) (packet : List ℕ)
    → new_interface config ≡ ok i
    → Reach i j
    → (j.is_open ≡ false)
      × ((read_interface j).0 ≡ err interface_not_open)
      × ((write_interface j packet).0 ≡ fails interface_not_open)
unfolding read_interface write_interface
Reach-closed config i j packet h r =
    let shut = Reaches-closed (new_interface-closed config i h) r in
    (shut, ground arith, ground arith)
