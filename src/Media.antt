-- ===== src/Media.antt =====
-- SvcKit/subsystems/media: the audio codecs.
pub mod G711
pub mod Audio
pub mod Queue
