-- ===== src/Lib.antt =====
-- PeerMesh: a mesh VPN in Go. Peers find each other through a discovery server (src/internal/discovery),
-- reach each other through NAT with STUN and hole punching and keep a pool of connections
-- (src/internal/peer), and carry packets over a TUN interface with addresses from an allocator
-- (src/internal/vpn). The manager of the VPN owns an allocator, an interface and a packet processor. The
-- command line (src/internal/cli, src/cmd/peermesh) parses its commands and does not call the other parts yet.
--
-- The model is written as pure functions on records: a method takes the state and returns its result
-- and the next state. A mutex makes a method one step. What comes from the network, the clock, the
-- operating system or a text parser is an argument.
--
--   Prelude            lists, results, integers, association lists for maps, bytes
--   Net                what the program uses of Go's package net: addresses, their equality and text,
--                      masks and subnets; IP.String is kept as the bytes that it tells apart
--   Sync               a mutex that goroutines share: their calls, and any schedule of them
--   Discovery.Message  src/internal/discovery: Message, and what JSON decoding gives a type assertion
--   Discovery.Server   src/internal/discovery/server.go: Server, its registry of peers and its handlers; what
--                      it writes is listed
--   Discovery.Wire     the JSON that the server and the client write
--   Discovery.Client   src/internal/discovery/client.go: Client and its handlers
--   Discovery.Session  Connect and the loops of handleMessages and reconnectToServer in client.go
--   Discovery.Locks    the calls on the mutex of Server.Stop and of Client.Connect
--   Discovery.Mirror   the server and a client that handles what the server writes to its connection
--   Vpn.Allocator      src/internal/vpn/ipallocator.go: IPAllocator
--   Vpn.Packet         src/internal/vpn/packet.go: Packet and PacketProcessor
--   Vpn.Interface      src/internal/vpn/interface.go: Interface, its channels as lists
--   Vpn.Manager        src/internal/vpn/manager.go and handlers.go: Manager, its goroutine `run` as `poll`
--   Peer.Stun          src/internal/peer/nat_traversal.go: the STUN messages
--   Peer.Traversal     src/internal/peer/nat_traversal.go: NATTraversal, its servers, its peers and its listener
--   Peer.Pool          src/internal/peer/connection.go: ConnectionPool
--   Cli.Commands       src/internal/cli/commands.go: CLI and its commands
--   Cli.Interactive    src/internal/cli/interactive.go: InteractiveCLI, and src/cmd/peermesh/main.go
--   Tests              runs on concrete inputs
--
-- Modules below a component hold its theorems: Server.Registry the invariant over histories and
-- Server.Views what the server answers, Server.Connection the loop of one connection and what it
-- leaves behind, Server.Lifecycle the server's start and its background loops; Session.Lost and
-- Session.Registered a client that loses its connection and one that registers; Client.Reading what
-- the client makes of the server's messages; Mirror.World both sides and their steps, Mirror.Follow
-- what a client makes of a broadcast, Mirror.Steps and Mirror.News what holds over the steps;
-- Allocator.Scan the order of the scan, Allocator.Lifecycle the invariant over histories,
-- Allocator.Handout the addresses given and taken back, Allocator.Increment the arithmetic,
-- Allocator.Cidr the addresses under a mask, Allocator.Size how many they are, Allocator.Inside and
-- Allocator.Escape what is handed out inside a subnet and at its end; Packet.Parse, Packet.Ttl and
-- Packet.Checksum; Interface.Closed; Manager.Gateway, Manager.LocalIp and Manager.Running;
-- Stun.Response; Traversal.PublicAddress and Traversal.Punch; Pool.Connections, Pool.Invariant and
-- Pool.Replies; Commands.Join, Commands.PeerId and Interactive.Session.
--
-- The client's messages meet the server's in Mirror: a registration, a lost connection or a cleanup
-- changes the registry, and the client's handlers read what the server's functions wrote to the
-- client's connection. A step of Mirror ends when the client has read its writes. IP.String,
-- ParseIP, ToLower, the host's name and the text of a time are parameters.
--
-- A Go map is an association list, whose order stands for one order of iteration: the order in which
-- GetPeers or a broadcast visits the peers is not fixed by the program. A subnet's mask is as long as
-- its address, as ParseCIDR makes it; on a shorter mask, on which Go would panic, the model's
-- broadcast address keeps the bytes. A slice is taken of the data's length, without spare capacity.
--
-- Bounds and fuel: an int64 counter is kept as its bit pattern modulo 2 ^ 64, the checksum's uint32 sum
-- modulo 2 ^ 32, bytes modulo 256. The loop that folds carries has fuel 3. The STUN loop has the
-- message's length for fuel, and each round moves on by four bytes or more. The scan of the
-- allocator has as many rounds as the source's loop. A hash of a host's name is below 10000, and its
-- digits have fuel 20.
--
-- Not modelled: logging, the sockets themselves, the text of JSON and the WebSocket library, the
-- HTTP server, a Disconnect that comes between a loop's look at the stop channel and its read, and
-- interleavings inside one method other than those of the two mutexes in Discovery.Locks.
mod Prelude
pub mod Net
pub mod Sync
pub mod Discovery
pub mod Cli
pub mod Vpn
pub mod Peer
mod Tests
