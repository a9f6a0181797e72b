-- ===== src/Protocols.antt =====
-- SvcKit/protocols: what the network protocols share.
pub mod Rtp
