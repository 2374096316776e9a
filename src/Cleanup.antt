-- ===== src/Cleanup.antt =====
-- client/cleanup.cc: the cleanup algorithms. Each child is about one part of it.
pub mod Range
pub mod Dates
pub mod Filter
pub mod Number
pub mod Timeline
pub mod Limit
pub mod Loop
pub mod Distinct
pub mod EmptyPrePost
pub mod Safety
