-- ===== src/Server.antt =====
-- The D-Bus service snapperd (server/): its clients with their locks, mounts and comparisons, and the
-- configurations that it holds (MetaSnapper). Each child is about one part of it.
pub mod State
pub mod Permission
pub mod Handlers
pub mod Steps
pub mod UseCount
pub mod Refused
pub mod Held
