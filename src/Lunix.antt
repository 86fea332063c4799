-- ===== src/Lunix.antt =====
-- The driver of Lunix_Device_Driver.
pub mod Kernel
pub mod Sensor
pub mod Protocol
pub mod Ldisc
pub mod Chrdev
pub mod Module
pub mod Measure
pub mod Tables
mod Tests
