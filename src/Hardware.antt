-- ===== src/Hardware.antt =====
-- platform/libhardware: the module loader and the version rules of hardware.h.
pub mod Version
pub mod Component
pub mod Path
pub mod Loader
pub mod Scan
pub mod Cache
