-- ===== src/Host/Codec.antt =====
-- platform/ubuntu_x86_64/codec/codec_host_x86.c: a codec that copies frames or hands them to x264.
pub mod Types
pub mod Control
pub mod Encode
pub mod Laws
pub mod Safety
pub mod Tests
