-- ===== src/Kd11ea/Micro/Roms.antt =====
-- The PROMs of the micro-cycle (pdp11/kd11ea/roms/rom_images.h).
pub mod Function
pub mod Single
pub mod Double
