-- ===== src/Examples.antt =====
-- The theorems at concrete inputs: a little-endian machine, frames, clients and their queues, peer servers.
pub mod Machine
pub mod Frames
pub mod Clients
pub mod Streams
pub mod Queues
pub mod Messages
pub mod Peers
pub mod Server
