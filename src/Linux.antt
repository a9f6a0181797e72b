-- ===== src/Linux.antt =====
-- platform/shared/linux: the cores that several boards share.
pub mod Serial
pub mod Gpio
