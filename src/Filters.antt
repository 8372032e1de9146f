-- ===== src/Filters.antt =====
-- Which planning units bid for a request: ibidding/filter.
pub mod Planning
pub mod Table
pub mod Results
pub mod Keys
pub mod Parameter
pub mod Kinds
pub mod Run
pub mod Filed
pub mod Units
pub mod Marks
pub mod Looked
pub mod Kept
pub mod Marked
pub mod Select
pub mod RealTime
pub mod Mark
pub mod TanxContent
pub mod Tanx
pub mod Sample
mod Tests
