-- ===== src/Discovery.antt =====
-- src/internal/discovery: the server that lets peers find each other, and its clients.
pub mod Message
pub mod Server
pub mod Wire
pub mod Client
pub mod Locks
pub mod Session
pub mod Mirror
