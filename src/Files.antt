-- ===== src/Files.antt =====
-- snapper/File.cc, File.h and XAttributes.cc: what undoing the changes between two snapshots does.
pub mod Status
pub mod Undo
pub mod Paths
pub mod Attributes
