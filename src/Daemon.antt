-- ===== src/Daemon.antt =====
-- The daemons of the three systems: what they make of raw events, and how they send outputs. Opening,
-- grabbing and hooking of devices are calls of the systems.
pub mod Sending
pub mod Linux
pub mod Mac
pub mod Windows
