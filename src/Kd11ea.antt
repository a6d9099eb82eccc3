-- ===== src/Kd11ea.antt =====
-- The processor board: its PROMs, interrupt arbiter and memory management
-- (pdp11/kd11ea/).
pub mod Roms
pub mod Int
pub mod Mmu
pub mod Decode
pub mod Ucode
pub mod Micro
pub mod Alu
pub mod Clock
mod DecodeTests
mod MicroTests
mod Tests
