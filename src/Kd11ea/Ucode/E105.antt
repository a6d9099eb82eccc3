-- ===== src/Kd11ea/Ucode/E105.antt =====
-- One of the twelve PROMs of the control store, four bits of each micro-word
-- (pdp11/kd11ea/roms/rom_images.h).
use ll.Prelude.{ℕ, List, [], ◌∷◌}

unfoldable pub m8266_e105_ucode_rom : List ℕ
m8266_e105_ucode_rom =
    0 ∷ 5 ∷ 0 ∷ 5 ∷ 0 ∷ 5 ∷ 5 ∷ 8 ∷ 9 ∷ 5 ∷ 5 ∷ 5 ∷ 0 ∷ 5 ∷ 0 ∷ 0 ∷ 8 ∷ 0 ∷ 0 ∷ 0 ∷ 0 ∷ 5 ∷ 0 ∷ 8
    ∷ 0 ∷ 0 ∷ 0 ∷ 0 ∷ 8 ∷ 8 ∷ 0 ∷ 5 ∷ 8 ∷ 5 ∷ 0 ∷ 5 ∷ 2 ∷ 5 ∷ 5 ∷ 8 ∷ 0 ∷ 5 ∷ 5 ∷ 0 ∷ 8 ∷ 8 ∷ 0 ∷ 0
    ∷ 5 ∷ 8 ∷ 8 ∷ 8 ∷ 0 ∷ 0 ∷ 8 ∷ 5 ∷ 8 ∷ 8 ∷ 8 ∷ 8 ∷ 5 ∷ 5 ∷ 8 ∷ 9 ∷ 8 ∷ 5 ∷ 8 ∷ 5 ∷ 2 ∷ 8 ∷ 5 ∷ 0
    ∷ 9 ∷ 5 ∷ 5 ∷ 0 ∷ 5 ∷ 5 ∷ 0 ∷ 8 ∷ 5 ∷ 0 ∷ 0 ∷ 0 ∷ 0 ∷ 5 ∷ 0 ∷ 5 ∷ 8 ∷ 0 ∷ 0 ∷ 0 ∷ 5 ∷ 5 ∷ 0 ∷ 5
    ∷ 0 ∷ 5 ∷ 0 ∷ 5 ∷ 0 ∷ 8 ∷ 5 ∷ 8 ∷ 2 ∷ 5 ∷ 5 ∷ 4 ∷ 5 ∷ 5 ∷ 5 ∷ 8 ∷ 5 ∷ 8 ∷ 8 ∷ 8 ∷ 5 ∷ 0 ∷ 8 ∷ 0
    ∷ 2 ∷ 8 ∷ 8 ∷ 8 ∷ 5 ∷ 0 ∷ 8 ∷ 9 ∷ 4 ∷ 0 ∷ 0 ∷ 5 ∷ 5 ∷ 7 ∷ 0 ∷ 0 ∷ 0 ∷ 4 ∷ 0 ∷ 0 ∷ 0 ∷ 0 ∷ 5 ∷ 0
    ∷ 4 ∷ 2 ∷ 5 ∷ 0 ∷ 0 ∷ 5 ∷ 5 ∷ 0 ∷ 0 ∷ 4 ∷ 0 ∷ 0 ∷ 0 ∷ 8 ∷ 0 ∷ 8 ∷ 4 ∷ 0 ∷ 0 ∷ 0 ∷ 0 ∷ 0 ∷ 0 ∷ 8
    ∷ 0 ∷ 0 ∷ 10 ∷ 0 ∷ 0 ∷ 8 ∷ 5 ∷ 0 ∷ 0 ∷ 8 ∷ 0 ∷ 0 ∷ 0 ∷ 5 ∷ 5 ∷ 0 ∷ 0 ∷ 0 ∷ 9 ∷ 0 ∷ 0 ∷ 4 ∷ 0 ∷ 8
    ∷ 0 ∷ 0 ∷ 0 ∷ 0 ∷ 5 ∷ 0 ∷ 0 ∷ 0 ∷ 0 ∷ 0 ∷ 0 ∷ 0 ∷ 0 ∷ 4 ∷ 5 ∷ 8 ∷ 4 ∷ 4 ∷ 4 ∷ 9 ∷ 0 ∷ 5 ∷ 8 ∷ 8
    ∷ 0 ∷ 0 ∷ 5 ∷ 9 ∷ 0 ∷ 4 ∷ 0 ∷ 8 ∷ 0 ∷ 5 ∷ 0 ∷ 8 ∷ 4 ∷ 0 ∷ 0 ∷ 0 ∷ 0 ∷ 4 ∷ 5 ∷ 0 ∷ 0 ∷ 4 ∷ 0 ∷ 8
    ∷ 0 ∷ 0 ∷ 4 ∷ 9 ∷ 0 ∷ 0 ∷ 8 ∷ 0 ∷ 0 ∷ 0 ∷ 0 ∷ 9 ∷ 0 ∷ 4 ∷ 0 ∷ 0 ∷ 0 ∷ 0 ∷ 4 ∷ 0 ∷ 0 ∷ 0 ∷ 0 ∷ 0
    ∷ 5 ∷ 5 ∷ 4 ∷ 0 ∷ 5 ∷ 5 ∷ 0 ∷ 0 ∷ 0 ∷ 8 ∷ 0 ∷ 0 ∷ 4 ∷ 0 ∷ 0 ∷ 5 ∷ 0 ∷ 0 ∷ 0 ∷ 0 ∷ 0 ∷ 5 ∷ 4 ∷ 8
    ∷ 5 ∷ 4 ∷ 4 ∷ 5 ∷ 0 ∷ 8 ∷ 4 ∷ 5 ∷ 0 ∷ 0 ∷ 4 ∷ 5 ∷ 4 ∷ 5 ∷ 8 ∷ 0 ∷ 8 ∷ 8 ∷ 8 ∷ 8 ∷ 8 ∷ 5 ∷ 4 ∷ 5
    ∷ 8 ∷ 8 ∷ 8 ∷ 8 ∷ 8 ∷ 0 ∷ 0 ∷ 8 ∷ 5 ∷ 0 ∷ 4 ∷ 5 ∷ 4 ∷ 8 ∷ 4 ∷ 5 ∷ 0 ∷ 0 ∷ 4 ∷ 5 ∷ 4 ∷ 8 ∷ 4 ∷ 0
    ∷ 0 ∷ 4 ∷ 0 ∷ 0 ∷ 4 ∷ 0 ∷ 5 ∷ 8 ∷ 0 ∷ 0 ∷ 0 ∷ 0 ∷ 0 ∷ 5 ∷ 0 ∷ 5 ∷ 5 ∷ 4 ∷ 4 ∷ 5 ∷ 0 ∷ 5 ∷ 0 ∷ 8
    ∷ 4 ∷ 0 ∷ 4 ∷ 5 ∷ 4 ∷ 5 ∷ 4 ∷ 5 ∷ 8 ∷ 4 ∷ 8 ∷ 8 ∷ 4 ∷ 8 ∷ 4 ∷ 5 ∷ 8 ∷ 8 ∷ 8 ∷ 8 ∷ 8 ∷ 0 ∷ 5 ∷ 5
    ∷ 0 ∷ 0 ∷ 0 ∷ 9 ∷ 5 ∷ 2 ∷ 4 ∷ 0 ∷ 9 ∷ 0 ∷ 2 ∷ 9 ∷ 4 ∷ 0 ∷ 5 ∷ 0 ∷ 0 ∷ 0 ∷ 0 ∷ 0 ∷ 5 ∷ 0 ∷ 0 ∷ 0
    ∷ 0 ∷ 0 ∷ 0 ∷ 5 ∷ 2 ∷ 0 ∷ 5 ∷ 0 ∷ 5 ∷ 5 ∷ 0 ∷ 9 ∷ 9 ∷ 8 ∷ 8 ∷ 0 ∷ 0 ∷ 4 ∷ 9 ∷ 9 ∷ 0 ∷ 0 ∷ 8 ∷ 0
    ∷ 5 ∷ 7 ∷ 0 ∷ 0 ∷ 2 ∷ 0 ∷ 5 ∷ 0 ∷ 0 ∷ 8 ∷ 8 ∷ 5 ∷ 2 ∷ 0 ∷ 0 ∷ 0 ∷ 5 ∷ 5 ∷ 0 ∷ 9 ∷ 0 ∷ 0 ∷ 8 ∷ 0
    ∷ 4 ∷ 10 ∷ 0 ∷ 8 ∷ 0 ∷ 0 ∷ 5 ∷ 0 ∷ 0 ∷ 0 ∷ 0 ∷ 0 ∷ 8 ∷ 8 ∷ 5 ∷ 0 ∷ 5 ∷ 8 ∷ 4 ∷ 8 ∷ 0 ∷ 0 ∷ 0 ∷ 0
    ∷ 0 ∷ 0 ∷ 9 ∷ 0 ∷ 5 ∷ 8 ∷ 0 ∷ 0 ∷ 4 ∷ 10 ∷ 0 ∷ 8 ∷ 0 ∷ 0 ∷ 5 ∷ 0 ∷ 0 ∷ 8 ∷ 0 ∷ 5 ∷ 2 ∷ 0 ∷ 8 ∷ 0
    ∷ 0 ∷ 9 ∷ 0 ∷ 2 ∷ 0 ∷ 0 ∷ 0 ∷ 0 ∷ 0 ∷ 0 ∷ 0 ∷ 0 ∷ 0 ∷ 0 ∷ 0 ∷ 0 ∷ 0 ∷ 0 ∷ 0 ∷ 0 ∷ 0 ∷ 0 ∷ 0 ∷ 0
    ∷ 0 ∷ 0 ∷ 0 ∷ 0 ∷ 0 ∷ 0 ∷ 0 ∷ 0 ∷ 0 ∷ 0 ∷ 0 ∷ 0 ∷ 0 ∷ 0 ∷ 0 ∷ 0 ∷ 0 ∷ 0 ∷ 0 ∷ 0 ∷ 0 ∷ 0 ∷ 0 ∷ 0
    ∷ 0 ∷ 0 ∷ 0 ∷ 0 ∷ 0 ∷ 0 ∷ 0 ∷ 0 ∷ 0 ∷ 0 ∷ 0 ∷ 0 ∷ 0 ∷ 0 ∷ 0 ∷ 0 ∷ 0 ∷ 0 ∷ 0 ∷ 0 ∷ 0 ∷ 0 ∷ 0 ∷ 0
    ∷ 0 ∷ 0 ∷ 0 ∷ 0 ∷ 0 ∷ 0 ∷ 0 ∷ 0 ∷ 0 ∷ 0 ∷ 0 ∷ 0 ∷ 0 ∷ 0 ∷ 0 ∷ 0 ∷ 0 ∷ 0 ∷ 0 ∷ 0 ∷ 0 ∷ 0 ∷ 0 ∷ 0
    ∷ 0 ∷ 0 ∷ 0 ∷ 0 ∷ 0 ∷ 0 ∷ 0 ∷ 0 ∷ 0 ∷ 0 ∷ 0 ∷ 0 ∷ 0 ∷ 0 ∷ 0 ∷ 0 ∷ 0 ∷ 0 ∷ 0 ∷ 0 ∷ 0 ∷ 0 ∷ 0 ∷ 0
    ∷ 0 ∷ 0 ∷ 0 ∷ 0 ∷ 0 ∷ 0 ∷ 0 ∷ 0 ∷ 0 ∷ 0 ∷ 0 ∷ 0 ∷ 0 ∷ 0 ∷ 0 ∷ 0 ∷ 0 ∷ 0 ∷ 0 ∷ 0 ∷ 0 ∷ 0 ∷ 0 ∷ 0
    ∷ 0 ∷ 0 ∷ 0 ∷ 0 ∷ 0 ∷ 0 ∷ 0 ∷ 0 ∷ 0 ∷ 0 ∷ 0 ∷ 0 ∷ 0 ∷ 0 ∷ 0 ∷ 0 ∷ 0 ∷ 0 ∷ 0 ∷ 0 ∷ 0 ∷ 0 ∷ 0 ∷ 0
    ∷ 0 ∷ 0 ∷ 0 ∷ 0 ∷ 0 ∷ 0 ∷ 0 ∷ 0 ∷ 0 ∷ 0 ∷ 0 ∷ 0 ∷ 0 ∷ 0 ∷ 0 ∷ 0 ∷ 0 ∷ 0 ∷ 0 ∷ 0 ∷ 0 ∷ 0 ∷ 0 ∷ 0
    ∷ 0 ∷ 0 ∷ 0 ∷ 0 ∷ 0 ∷ 0 ∷ 0 ∷ 0 ∷ 0 ∷ 0 ∷ 0 ∷ 0 ∷ 0 ∷ 0 ∷ 0 ∷ 0 ∷ 0 ∷ 0 ∷ 0 ∷ 0 ∷ 0 ∷ 0 ∷ 0 ∷ 0
    ∷ 0 ∷ 0 ∷ 0 ∷ 0 ∷ 0 ∷ 0 ∷ 0 ∷ 0 ∷ 0 ∷ 0 ∷ 0 ∷ 0 ∷ 0 ∷ 0 ∷ 0 ∷ 0 ∷ 0 ∷ 0 ∷ 0 ∷ 0 ∷ 0 ∷ 0 ∷ 0 ∷ 0
    ∷ 0 ∷ 0 ∷ 0 ∷ 0 ∷ 0 ∷ 0 ∷ 0 ∷ 0 ∷ 0 ∷ 0 ∷ 0 ∷ 0 ∷ 0 ∷ 0 ∷ 0 ∷ 0 ∷ 0 ∷ 0 ∷ 0 ∷ 0 ∷ 0 ∷ 0 ∷ 0 ∷ 0
    ∷ 0 ∷ 0 ∷ 0 ∷ 0 ∷ 0 ∷ 0 ∷ 0 ∷ 0 ∷ 0 ∷ 0 ∷ 0 ∷ 0 ∷ 0 ∷ 0 ∷ 0 ∷ 0 ∷ 0 ∷ 0 ∷ 0 ∷ 0 ∷ 0 ∷ 0 ∷ 0 ∷ 0
    ∷ 0 ∷ 0 ∷ 0 ∷ 0 ∷ 0 ∷ 0 ∷ 0 ∷ 0 ∷ 0 ∷ 0 ∷ 0 ∷ 0 ∷ 0 ∷ 0 ∷ 0 ∷ 0 ∷ 0 ∷ 0 ∷ 0 ∷ 0 ∷ 0 ∷ 0 ∷ 0 ∷ 0
    ∷ 0 ∷ 0 ∷ 0 ∷ 0 ∷ 0 ∷ 0 ∷ 0 ∷ 0 ∷ 0 ∷ 0 ∷ 0 ∷ 0 ∷ 0 ∷ 0 ∷ 0 ∷ 0 ∷ 0 ∷ 0 ∷ 0 ∷ 0 ∷ 0 ∷ 0 ∷ 0 ∷ 0
    ∷ 0 ∷ 0 ∷ 0 ∷ 0 ∷ 0 ∷ 0 ∷ 0 ∷ 0 ∷ 0 ∷ 0 ∷ 0 ∷ 0 ∷ 0 ∷ 0 ∷ 0 ∷ 0 ∷ 0 ∷ 0 ∷ 0 ∷ 0 ∷ 0 ∷ 0 ∷ 0 ∷ 0
    ∷ 0 ∷ 0 ∷ 0 ∷ 0 ∷ 0 ∷ 0 ∷ 0 ∷ 0 ∷ 0 ∷ 0 ∷ 0 ∷ 0 ∷ 0 ∷ 0 ∷ 0 ∷ 0 ∷ 0 ∷ 0 ∷ 0 ∷ 0 ∷ 0 ∷ 0 ∷ 0 ∷ 0
    ∷ 0 ∷ 0 ∷ 0 ∷ 0 ∷ 0 ∷ 0 ∷ 0 ∷ 0 ∷ 0 ∷ 0 ∷ 0 ∷ 0 ∷ 0 ∷ 0 ∷ 0 ∷ 0 ∷ 0 ∷ 0 ∷ 0 ∷ 0 ∷ 0 ∷ 0 ∷ 0 ∷ 0
    ∷ 0 ∷ 0 ∷ 0 ∷ 0 ∷ 0 ∷ 0 ∷ 0 ∷ 0 ∷ 0 ∷ 0 ∷ 0 ∷ 0 ∷ 0 ∷ 0 ∷ 0 ∷ 0 ∷ 0 ∷ 0 ∷ 0 ∷ 0 ∷ 0 ∷ 0 ∷ 0 ∷ 0
    ∷ 0 ∷ 0 ∷ 0 ∷ 0 ∷ 0 ∷ 0 ∷ 0 ∷ 0 ∷ 0 ∷ 0 ∷ 0 ∷ 0 ∷ 0 ∷ 0 ∷ 0 ∷ 0 ∷ 0 ∷ 0 ∷ 0 ∷ 0 ∷ 0 ∷ 0 ∷ 0 ∷ 0
    ∷ 0 ∷ 0 ∷ 0 ∷ 0 ∷ 0 ∷ 0 ∷ 0 ∷ 0 ∷ 0 ∷ 0 ∷ 0 ∷ 0 ∷ 0 ∷ 0 ∷ 0 ∷ 0 ∷ 0 ∷ 0 ∷ 0 ∷ 0 ∷ 0 ∷ 0 ∷ 0 ∷ 0
    ∷ 0 ∷ 0 ∷ 0 ∷ 0 ∷ 0 ∷ 0 ∷ 0 ∷ 0 ∷ 0 ∷ 0 ∷ 0 ∷ 0 ∷ 0 ∷ 0 ∷ 0 ∷ 0 ∷ 0 ∷ 0 ∷ 0 ∷ 0 ∷ 0 ∷ 0 ∷ 0 ∷ 0
    ∷ 0 ∷ 0 ∷ 0 ∷ 0 ∷ 0 ∷ 0 ∷ 0 ∷ 0 ∷ 0 ∷ 0 ∷ 0 ∷ 0 ∷ 0 ∷ 0 ∷ 0 ∷ 0 ∷ []
