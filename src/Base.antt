-- ===== src/Base.antt =====
-- SvcKit/base: what every service uses.
pub mod Crypto
pub mod Reactor
pub mod Pool
