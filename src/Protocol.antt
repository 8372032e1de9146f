-- ===== src/Protocol.antt =====
-- The wire protocol between the adapter and the bidder.
pub mod Wire
pub mod Head
pub mod Pairs
pub mod Key
pub mod Zlib
pub mod Packet
pub mod Request
pub mod Response
pub mod Short
mod Tests
