-- ===== src/Textproc.antt =====
-- core/textproc: what is done to a recognized text before anything else. A text is its code points.
pub mod Normalize
pub mod Idempotence
pub mod Rules
pub mod Processor
pub mod Order
pub mod Caches
mod Tests
