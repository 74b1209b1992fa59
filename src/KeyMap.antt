-- ===== src/KeyMap.antt =====
-- The key maps of the three systems (key_map.cpp of linux, mac and win): which keys a daemon can
-- report, and which it can send.
pub mod Linux
pub mod Mac
pub mod Windows
pub mod Sendable
