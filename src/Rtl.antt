-- ===== src/Rtl.antt =====
-- The runtime library: ntos/rtl.
pub mod Memory
pub mod Itoa
pub mod Printf
pub mod Str
