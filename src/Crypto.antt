-- ===== src/Crypto.antt =====
-- The virtio cryptodev of Virtio_Crypto_Chat/virtio-cryptodev: the guest's driver and QEMU's device.
pub mod Message
pub mod Host
pub mod Guest
pub mod Devices
pub mod Through
pub mod Queue
pub mod Selftest
mod Tests
