-- ===== src/Vs816.antt =====
-- platform/vendors/visinextek/socs/vs816: the device modules of the VS816.
pub mod Light
