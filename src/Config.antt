-- ===== src/Config.antt =====
-- The configuration files of snapper (snapper/AsciiFile.cc).
pub mod Sysconfig
