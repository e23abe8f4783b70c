-- ===== src/Caustic.antt =====
-- caustic.c: the scores of a file, and the buffer that its report is written to.
pub mod Config
pub mod Scores
pub mod StrBuf
pub mod Escape
pub mod System
pub mod Payload
mod Tests
