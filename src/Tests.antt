-- ===== src/Tests.antt =====
-- Runs of the definitions at concrete inputs.
pub mod Frames
pub mod Tables
pub mod Objects
pub mod Archive
pub mod Kernel
pub mod Strings
pub mod Executive
pub mod Processes
pub mod Firmware
pub mod Processors
pub mod Programs
pub mod Devices
