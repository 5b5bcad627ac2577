-- ===== src/AsyncOp.antt =====
-- dev/so_5_extra/async_op: operations that end by one of several messages.
pub mod Subscriptions
pub mod TimeLimited
pub mod TimeUnlimited
