-- ===== src/Peer.antt =====
-- src/internal/peer: NAT traversal and the pool of connections.
pub mod Stun
pub mod Traversal
pub mod Pool
