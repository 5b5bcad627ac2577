-- ===== src/Mboxes.antt =====
-- The message boxes of dev/so_5_extra/mboxes.
pub mod RoundRobin
pub mod InflightLimit
pub mod FirstLast
pub mod Composite
pub mod Collecting
pub mod Retained
pub mod Broadcast
pub mod Proxy
pub mod Network
