-- ===== src/Audio.antt =====
-- core/audio: speech segments, streams, the batch recording, and the capture facade.
pub mod Vad
pub mod Batch
pub mod Capture
pub mod Stream
mod Tests
