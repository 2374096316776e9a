-- ===== src/Examples.antt =====
-- The theorems of the other modules at concrete inputs.
mod Store
mod Cleaner
mod Data
mod Frames
mod Trees
mod Config
mod Service
mod Proxies
mod Stream
mod Volumes
mod Backups
