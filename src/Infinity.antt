-- ===== src/Infinity.antt =====
-- The proxy of infinity.c: an epoll loop that relays bytes between clients and one upstream.
pub mod Buffer
pub mod Session
pub mod Proxy
pub mod Sockets
pub mod ReportConfig
pub mod Envelope
pub mod Config
pub mod Artifact
mod Tests
