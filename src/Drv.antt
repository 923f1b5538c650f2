-- ===== src/Drv.antt =====
-- The drivers, ntos/drv.
pub mod BootVid
pub mod Clkdev
pub mod Pit
pub mod Uart
pub mod Hpet
