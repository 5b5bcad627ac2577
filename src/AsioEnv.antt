-- ===== src/AsioEnv.antt =====
-- dev/so_5_extra/env_infrastructures/asio: what the environments over Asio are made of.
pub mod Timers
pub mod Shutdown
pub mod EventQueue
