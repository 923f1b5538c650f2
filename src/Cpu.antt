-- ===== src/Cpu.antt =====
-- The processor's own devices, ntos/platform/amd64/cpu.
pub mod Lapic
pub mod Mp
pub mod Idt
pub mod Init
pub mod Tss
pub mod Trap
pub mod Symbols
pub mod Timers
