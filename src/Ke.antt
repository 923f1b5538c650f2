-- ===== src/Ke.antt =====
-- The kernel core, ntos/ke, and the platform code below it.
pub mod Irql
pub mod Parb
pub mod Sched
pub mod Process
pub mod Loader
pub mod Module
