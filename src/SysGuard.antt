-- ===== src/SysGuard.antt =====
-- The process-wide guards of the vendor media systems. Each call runs under its mutex, so a history of
-- the guard is a sequence of whole calls.
pub mod Rockchip
pub mod Visinextek
pub mod Tests
