-- ===== src/Rank.antt =====
-- Which of the units left bids, and at which price: ibidding/engine/src/AdRtbDealRank.cpp.
pub mod Wet
pub mod Choice
pub mod Table
pub mod Groups
pub mod Third
pub mod Chosen
mod Tests
