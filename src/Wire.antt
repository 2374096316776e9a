-- ===== src/Wire.antt =====
-- How texts are escaped on the D-Bus connection, in its pipes, and in STOMP messages.
pub mod Escape
pub mod Stomp
