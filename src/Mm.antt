-- ===== src/Mm.antt =====
-- Memory management: ntos/mm.
pub mod Phys
pub mod Words64
pub mod Mmu
pub mod Page
