-- ===== src/Tests.antt =====
-- Runs of the models on concrete inputs, and the theorems applied to them.
mod Allocator
mod Packet
mod Manager
mod Stun
mod Pool
mod Discovery
mod Traversal
mod Client
mod Locks
mod Cli
