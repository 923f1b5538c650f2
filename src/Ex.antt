-- ===== src/Ex.antt =====
-- The executive, ntos/ex, and the kernel's timers over the object manager.
pub mod Box
pub mod Mapper
pub mod Timer
