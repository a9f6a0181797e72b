-- ===== src/Host.antt =====
-- platform/ubuntu_x86_64: the device modules of the host variant.
pub mod Graphics
pub mod Light
pub mod Audio
pub mod Bluetooth
pub mod Sensors
pub mod Wifi
pub mod Codec
