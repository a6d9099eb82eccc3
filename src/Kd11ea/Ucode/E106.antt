-- ===== src/Kd11ea/Ucode/E106.antt =====
-- One of the twelve PROMs of the control store, four bits of each micro-word
-- (pdp11/kd11ea/roms/rom_images.h).
use ll.Prelude.{ℕ, List, [], ◌∷◌}

unfoldable pub m8266_e106_ucode_rom : List ℕ
m8266_e106_ucode_rom =
    8 ∷ 8 ∷ 8 ∷ 8 ∷ 8 ∷ 12 ∷ 8 ∷ 8 ∷ 12 ∷ 8 ∷ 8 ∷ 8 ∷ 10 ∷ 12 ∷ 8 ∷ 12 ∷ 8 ∷ 9 ∷ 9 ∷ 9 ∷ 10 ∷ 9 ∷ 9
    ∷ 9 ∷ 8 ∷ 9 ∷ 9 ∷ 9 ∷ 9 ∷ 9 ∷ 9 ∷ 8 ∷ 12 ∷ 8 ∷ 8 ∷ 12 ∷ 12 ∷ 9 ∷ 12 ∷ 9 ∷ 8 ∷ 12 ∷ 12 ∷ 13 ∷ 9
    ∷ 9 ∷ 12 ∷ 8 ∷ 8 ∷ 12 ∷ 12 ∷ 12 ∷ 9 ∷ 9 ∷ 12 ∷ 12 ∷ 12 ∷ 12 ∷ 12 ∷ 12 ∷ 12 ∷ 12 ∷ 12 ∷ 9 ∷ 8 ∷ 8
    ∷ 8 ∷ 12 ∷ 9 ∷ 9 ∷ 12 ∷ 12 ∷ 12 ∷ 12 ∷ 12 ∷ 12 ∷ 12 ∷ 12 ∷ 12 ∷ 9 ∷ 12 ∷ 9 ∷ 9 ∷ 9 ∷ 9 ∷ 12 ∷ 9
    ∷ 8 ∷ 9 ∷ 9 ∷ 9 ∷ 9 ∷ 8 ∷ 8 ∷ 9 ∷ 12 ∷ 8 ∷ 12 ∷ 12 ∷ 12 ∷ 10 ∷ 9 ∷ 12 ∷ 8 ∷ 8 ∷ 12 ∷ 12 ∷ 12 ∷ 8
    ∷ 8 ∷ 12 ∷ 9 ∷ 8 ∷ 12 ∷ 12 ∷ 12 ∷ 12 ∷ 9 ∷ 12 ∷ 9 ∷ 8 ∷ 12 ∷ 12 ∷ 12 ∷ 2 ∷ 9 ∷ 12 ∷ 12 ∷ 1 ∷ 8
    ∷ 9 ∷ 2 ∷ 12 ∷ 8 ∷ 8 ∷ 8 ∷ 1 ∷ 8 ∷ 8 ∷ 0 ∷ 9 ∷ 9 ∷ 8 ∷ 8 ∷ 9 ∷ 12 ∷ 8 ∷ 9 ∷ 9 ∷ 0 ∷ 12 ∷ 8 ∷ 0
    ∷ 12 ∷ 8 ∷ 0 ∷ 1 ∷ 9 ∷ 9 ∷ 0 ∷ 0 ∷ 8 ∷ 0 ∷ 8 ∷ 8 ∷ 8 ∷ 9 ∷ 8 ∷ 0 ∷ 0 ∷ 8 ∷ 8 ∷ 0 ∷ 9 ∷ 12 ∷ 8
    ∷ 9 ∷ 9 ∷ 9 ∷ 9 ∷ 9 ∷ 8 ∷ 8 ∷ 8 ∷ 9 ∷ 9 ∷ 8 ∷ 8 ∷ 9 ∷ 12 ∷ 0 ∷ 9 ∷ 1 ∷ 9 ∷ 8 ∷ 8 ∷ 12 ∷ 0 ∷ 9
    ∷ 8 ∷ 9 ∷ 9 ∷ 9 ∷ 9 ∷ 9 ∷ 12 ∷ 12 ∷ 8 ∷ 8 ∷ 8 ∷ 1 ∷ 12 ∷ 8 ∷ 10 ∷ 9 ∷ 0 ∷ 9 ∷ 9 ∷ 0 ∷ 9 ∷ 1 ∷ 8
    ∷ 9 ∷ 0 ∷ 8 ∷ 0 ∷ 9 ∷ 8 ∷ 0 ∷ 9 ∷ 0 ∷ 0 ∷ 9 ∷ 12 ∷ 8 ∷ 8 ∷ 1 ∷ 8 ∷ 8 ∷ 0 ∷ 9 ∷ 8 ∷ 9 ∷ 9 ∷ 9 ∷ 9
    ∷ 9 ∷ 9 ∷ 8 ∷ 8 ∷ 8 ∷ 12 ∷ 9 ∷ 12 ∷ 9 ∷ 8 ∷ 10 ∷ 8 ∷ 8 ∷ 10 ∷ 8 ∷ 0 ∷ 0 ∷ 9 ∷ 10 ∷ 8 ∷ 8 ∷ 8
    ∷ 10 ∷ 8 ∷ 8 ∷ 8 ∷ 9 ∷ 9 ∷ 9 ∷ 9 ∷ 12 ∷ 9 ∷ 9 ∷ 8 ∷ 9 ∷ 9 ∷ 9 ∷ 9 ∷ 9 ∷ 12 ∷ 12 ∷ 9 ∷ 12 ∷ 12
    ∷ 12 ∷ 12 ∷ 9 ∷ 8 ∷ 12 ∷ 12 ∷ 13 ∷ 8 ∷ 12 ∷ 12 ∷ 8 ∷ 8 ∷ 9 ∷ 9 ∷ 12 ∷ 9 ∷ 12 ∷ 12 ∷ 9 ∷ 12 ∷ 12
    ∷ 8 ∷ 12 ∷ 12 ∷ 12 ∷ 12 ∷ 12 ∷ 8 ∷ 9 ∷ 9 ∷ 12 ∷ 9 ∷ 12 ∷ 12 ∷ 12 ∷ 8 ∷ 8 ∷ 12 ∷ 12 ∷ 8 ∷ 12 ∷ 12
    ∷ 8 ∷ 9 ∷ 8 ∷ 9 ∷ 9 ∷ 8 ∷ 9 ∷ 9 ∷ 12 ∷ 9 ∷ 10 ∷ 9 ∷ 9 ∷ 9 ∷ 9 ∷ 9 ∷ 9 ∷ 2 ∷ 9 ∷ 8 ∷ 12 ∷ 12 ∷ 12
    ∷ 12 ∷ 9 ∷ 10 ∷ 9 ∷ 9 ∷ 12 ∷ 12 ∷ 12 ∷ 12 ∷ 12 ∷ 12 ∷ 8 ∷ 12 ∷ 12 ∷ 8 ∷ 12 ∷ 12 ∷ 8 ∷ 9 ∷ 12
    ∷ 12 ∷ 12 ∷ 12 ∷ 12 ∷ 12 ∷ 12 ∷ 9 ∷ 12 ∷ 8 ∷ 9 ∷ 8 ∷ 8 ∷ 9 ∷ 8 ∷ 8 ∷ 9 ∷ 8 ∷ 9 ∷ 9 ∷ 9 ∷ 9 ∷ 9
    ∷ 8 ∷ 8 ∷ 8 ∷ 8 ∷ 8 ∷ 9 ∷ 9 ∷ 8 ∷ 8 ∷ 9 ∷ 8 ∷ 9 ∷ 9 ∷ 9 ∷ 8 ∷ 9 ∷ 8 ∷ 12 ∷ 8 ∷ 8 ∷ 8 ∷ 9 ∷ 12
    ∷ 9 ∷ 9 ∷ 9 ∷ 8 ∷ 8 ∷ 8 ∷ 12 ∷ 12 ∷ 8 ∷ 8 ∷ 9 ∷ 8 ∷ 8 ∷ 8 ∷ 1 ∷ 0 ∷ 12 ∷ 8 ∷ 12 ∷ 8 ∷ 8 ∷ 9 ∷ 9
    ∷ 8 ∷ 9 ∷ 8 ∷ 8 ∷ 8 ∷ 8 ∷ 8 ∷ 0 ∷ 9 ∷ 9 ∷ 8 ∷ 9 ∷ 8 ∷ 9 ∷ 8 ∷ 0 ∷ 9 ∷ 0 ∷ 8 ∷ 8 ∷ 8 ∷ 9 ∷ 9 ∷ 9
    ∷ 9 ∷ 8 ∷ 8 ∷ 12 ∷ 8 ∷ 12 ∷ 8 ∷ 12 ∷ 9 ∷ 8 ∷ 8 ∷ 8 ∷ 8 ∷ 8 ∷ 8 ∷ 9 ∷ 9 ∷ 12 ∷ 9 ∷ 9 ∷ 8 ∷ 9 ∷ 8
    ∷ 9 ∷ 0 ∷ 8 ∷ 8 ∷ 8 ∷ 8 ∷ 9 ∷ 8 ∷ 9 ∷ 12 ∷ 9 ∷ 8 ∷ 9 ∷ 8 ∷ 8 ∷ 12 ∷ 8 ∷ 9 ∷ 0 ∷ 0 ∷ 12 ∷ 8 ∷ 0
    ∷ 0 ∷ 0 ∷ 0 ∷ 0 ∷ 0 ∷ 0 ∷ 0 ∷ 0 ∷ 0 ∷ 0 ∷ 0 ∷ 0 ∷ 0 ∷ 0 ∷ 0 ∷ 0 ∷ 0 ∷ 0 ∷ 0 ∷ 0 ∷ 0 ∷ 0 ∷ 0 ∷ 0
    ∷ 0 ∷ 0 ∷ 0 ∷ 0 ∷ 0 ∷ 0 ∷ 0 ∷ 0 ∷ 0 ∷ 0 ∷ 0 ∷ 0 ∷ 0 ∷ 0 ∷ 0 ∷ 0 ∷ 0 ∷ 0 ∷ 0 ∷ 0 ∷ 0 ∷ 0 ∷ 0 ∷ 0
    ∷ 0 ∷ 0 ∷ 0 ∷ 0 ∷ 0 ∷ 0 ∷ 0 ∷ 0 ∷ 0 ∷ 0 ∷ 0 ∷ 0 ∷ 0 ∷ 0 ∷ 0 ∷ 0 ∷ 0 ∷ 0 ∷ 0 ∷ 0 ∷ 0 ∷ 0 ∷ 0 ∷ 0
    ∷ 0 ∷ 0 ∷ 0 ∷ 0 ∷ 0 ∷ 0 ∷ 0 ∷ 0 ∷ 0 ∷ 0 ∷ 0 ∷ 0 ∷ 0 ∷ 0 ∷ 0 ∷ 0 ∷ 0 ∷ 0 ∷ 0 ∷ 0 ∷ 0 ∷ 0 ∷ 0 ∷ 0
    ∷ 0 ∷ 0 ∷ 0 ∷ 0 ∷ 0 ∷ 0 ∷ 0 ∷ 0 ∷ 0 ∷ 0 ∷ 0 ∷ 0 ∷ 0 ∷ 0 ∷ 0 ∷ 0 ∷ 0 ∷ 0 ∷ 0 ∷ 0 ∷ 0 ∷ 0 ∷ 0 ∷ 0
    ∷ 0 ∷ 0 ∷ 0 ∷ 0 ∷ 0 ∷ 0 ∷ 0 ∷ 0 ∷ 0 ∷ 0 ∷ 0 ∷ 0 ∷ 0 ∷ 0 ∷ 0 ∷ 0 ∷ 0 ∷ 0 ∷ 0 ∷ 0 ∷ 0 ∷ 0 ∷ 0 ∷ 0
    ∷ 0 ∷ 0 ∷ 0 ∷ 0 ∷ 0 ∷ 0 ∷ 0 ∷ 0 ∷ 0 ∷ 0 ∷ 0 ∷ 0 ∷ 0 ∷ 0 ∷ 0 ∷ 0 ∷ 0 ∷ 0 ∷ 0 ∷ 0 ∷ 0 ∷ 0 ∷ 0 ∷ 0
    ∷ 0 ∷ 0 ∷ 0 ∷ 0 ∷ 0 ∷ 0 ∷ 0 ∷ 0 ∷ 0 ∷ 0 ∷ 0 ∷ 0 ∷ 0 ∷ 0 ∷ 0 ∷ 0 ∷ 0 ∷ 0 ∷ 0 ∷ 0 ∷ 0 ∷ 0 ∷ 0 ∷ 0
    ∷ 0 ∷ 0 ∷ 0 ∷ 0 ∷ 0 ∷ 0 ∷ 0 ∷ 0 ∷ 0 ∷ 0 ∷ 0 ∷ 0 ∷ 0 ∷ 0 ∷ 0 ∷ 0 ∷ 0 ∷ 0 ∷ 0 ∷ 0 ∷ 0 ∷ 0 ∷ 0 ∷ 0
    ∷ 0 ∷ 0 ∷ 0 ∷ 0 ∷ 0 ∷ 0 ∷ 0 ∷ 0 ∷ 0 ∷ 0 ∷ 0 ∷ 0 ∷ 0 ∷ 0 ∷ 0 ∷ 0 ∷ 0 ∷ 0 ∷ 0 ∷ 0 ∷ 0 ∷ 0 ∷ 0 ∷ 0
    ∷ 0 ∷ 0 ∷ 0 ∷ 0 ∷ 0 ∷ 0 ∷ 0 ∷ 0 ∷ 0 ∷ 0 ∷ 0 ∷ 0 ∷ 0 ∷ 0 ∷ 0 ∷ 0 ∷ 0 ∷ 0 ∷ 0 ∷ 0 ∷ 0 ∷ 0 ∷ 0 ∷ 0
    ∷ 0 ∷ 0 ∷ 0 ∷ 0 ∷ 0 ∷ 0 ∷ 0 ∷ 0 ∷ 0 ∷ 0 ∷ 0 ∷ 0 ∷ 0 ∷ 0 ∷ 0 ∷ 0 ∷ 0 ∷ 0 ∷ 0 ∷ 0 ∷ 0 ∷ 0 ∷ 0 ∷ 0
    ∷ 0 ∷ 0 ∷ 0 ∷ 0 ∷ 0 ∷ 0 ∷ 0 ∷ 0 ∷ 0 ∷ 0 ∷ 0 ∷ 0 ∷ 0 ∷ 0 ∷ 0 ∷ 0 ∷ 0 ∷ 0 ∷ 0 ∷ 0 ∷ 0 ∷ 0 ∷ 0 ∷ 0
    ∷ 0 ∷ 0 ∷ 0 ∷ 0 ∷ 0 ∷ 0 ∷ 0 ∷ 0 ∷ 0 ∷ 0 ∷ 0 ∷ 0 ∷ 0 ∷ 0 ∷ 0 ∷ 0 ∷ 0 ∷ 0 ∷ 0 ∷ 0 ∷ 0 ∷ 0 ∷ 0 ∷ 0
    ∷ 0 ∷ 0 ∷ 0 ∷ 0 ∷ 0 ∷ 0 ∷ 0 ∷ 0 ∷ 0 ∷ 0 ∷ 0 ∷ 0 ∷ 0 ∷ 0 ∷ 0 ∷ 0 ∷ 0 ∷ 0 ∷ 0 ∷ 0 ∷ 0 ∷ 0 ∷ 0 ∷ 0
    ∷ 0 ∷ 0 ∷ 0 ∷ 0 ∷ 0 ∷ 0 ∷ 0 ∷ 0 ∷ 0 ∷ 0 ∷ 0 ∷ 0 ∷ 0 ∷ 0 ∷ 0 ∷ 0 ∷ 0 ∷ 0 ∷ 0 ∷ 0 ∷ 0 ∷ 0 ∷ 0 ∷ 0
    ∷ 0 ∷ 0 ∷ 0 ∷ 0 ∷ 0 ∷ 0 ∷ 0 ∷ 0 ∷ 0 ∷ 0 ∷ 0 ∷ 0 ∷ 0 ∷ 0 ∷ 0 ∷ 0 ∷ 0 ∷ 0 ∷ 0 ∷ 0 ∷ 0 ∷ 0 ∷ 0 ∷ 0
    ∷ 0 ∷ 0 ∷ 0 ∷ 0 ∷ 0 ∷ 0 ∷ 0 ∷ 0 ∷ 0 ∷ 0 ∷ 0 ∷ 0 ∷ 0 ∷ 0 ∷ 0 ∷ 0 ∷ 0 ∷ 0 ∷ 0 ∷ 0 ∷ 0 ∷ 0 ∷ 0 ∷ 0
    ∷ 0 ∷ 0 ∷ 0 ∷ 0 ∷ 0 ∷ 0 ∷ 0 ∷ 0 ∷ 0 ∷ 0 ∷ 0 ∷ 0 ∷ 0 ∷ 0 ∷ 0 ∷ 0 ∷ 0 ∷ 0 ∷ 0 ∷ 0 ∷ 0 ∷ 0 ∷ 0 ∷ 0
    ∷ 0 ∷ 0 ∷ 0 ∷ 0 ∷ 0 ∷ 0 ∷ 0 ∷ 0 ∷ 0 ∷ 0 ∷ 0 ∷ 0 ∷ 0 ∷ 0 ∷ 0 ∷ 0 ∷ 0 ∷ 0 ∷ 0 ∷ 0 ∷ 0 ∷ 0 ∷ 0 ∷ 0
    ∷ 0 ∷ 0 ∷ 0 ∷ 0 ∷ 0 ∷ 0 ∷ 0 ∷ 0 ∷ 0 ∷ 0 ∷ 0 ∷ 0 ∷ 0 ∷ 0 ∷ 0 ∷ 0 ∷ 0 ∷ 0 ∷ 0 ∷ 0 ∷ 0 ∷ 0 ∷ 0 ∷ 0
    ∷ 0 ∷ 0 ∷ 0 ∷ 0 ∷ 0 ∷ 0 ∷ 0 ∷ []
