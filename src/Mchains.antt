-- ===== src/Mchains.antt =====
-- The message chains of dev/so_5_extra/mchains.
pub mod FixedSize
