-- ===== src/Net.antt =====
-- The part of libnet that puts packets together from what a socket gives.
pub mod Cache
pub mod Session
mod Tests
