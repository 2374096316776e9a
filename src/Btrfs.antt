-- ===== src/Btrfs.antt =====
-- The comparison of two snapshots by the stream that "btrfs send" makes (snapper/Btrfs.cc): a tree of
-- statuses by name, and the stream's operations on it.
pub mod Tree
pub mod Stream
