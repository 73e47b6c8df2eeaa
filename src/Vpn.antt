-- ===== src/Vpn.antt =====
-- src/internal/vpn: addresses, packets, the interface and their manager.
pub mod Allocator
pub mod Packet
pub mod Interface
pub mod Manager
