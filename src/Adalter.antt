-- ===== src/Adalter.antt =====
-- The Simplex Adalter kernel module, simplex_adalter_kmod.c with simplex_adalter_uapi.h.
pub mod Fixed
pub mod Types
pub mod Report
pub mod Device
mod Tests
