-- ===== src/Std.antt =====
-- The parts of the C++ standard library that the components use.
pub mod Map
pub mod SortedVector
