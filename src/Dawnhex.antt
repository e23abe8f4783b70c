-- ===== src/Dawnhex.antt =====
-- The DawnHex kernel module, dawnhex_kmod.c with dawnhex_uapi.h and dawnhex_duo_uapi.h.
pub mod Fixed
pub mod Types
pub mod Events
pub mod Nodes
pub mod Simplex
pub mod Duo
pub mod Tick
pub mod Scan
pub mod Command
pub mod Device
pub mod Show
pub mod Sound
mod Tests
