-- ===== src/Compare.antt =====
-- snapper/Compare.cc: how the files below two directories are compared.
pub mod Content
pub mod Dirs
