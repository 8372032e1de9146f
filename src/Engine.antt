-- ===== src/Engine.antt =====
-- The bidder's answer to a request: ibidding/engine/src/AdRtbEngine.cpp.
pub mod Protect
pub mod Build
pub mod Run
pub mod Left
pub mod Candidates
pub mod Ranked
pub mod Bid
mod Tests
