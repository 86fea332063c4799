-- ===== src/Attach.antt =====
-- Lunix_Device_Driver/lunix-attach.c: the program that sets the line discipline on a TTY.
pub mod Termios
pub mod System
pub mod Lock
pub mod Flow
pub mod Line
mod Tests
