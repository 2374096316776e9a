-- ===== src/Snapshots.antt =====
-- snapper/Snapshot.cc: the list of snapshots with its directories on disk. Each child is about one
-- part of it.
pub mod Store
pub mod Dirs
pub mod Number
pub mod Create
pub mod Delete
pub mod History
pub mod Mount
