-- ===== src/Kd11ea/Ucode/E108.antt =====
-- One of the twelve PROMs of the control store, four bits of each micro-word
-- (pdp11/kd11ea/roms/rom_images.h).
use ll.Prelude.{ℕ, List, [], ◌∷◌}

unfoldable pub m8266_e108_ucode_rom : List ℕ
m8266_e108_ucode_rom =
    0 ∷ 8 ∷ 8 ∷ 8 ∷ 0 ∷ 8 ∷ 0 ∷ 0 ∷ 0 ∷ 4 ∷ 8 ∷ 8 ∷ 3 ∷ 8 ∷ 14 ∷ 0 ∷ 8 ∷ 13 ∷ 13 ∷ 13 ∷ 3 ∷ 8 ∷ 13
    ∷ 8 ∷ 0 ∷ 13 ∷ 13 ∷ 13 ∷ 8 ∷ 8 ∷ 13 ∷ 8 ∷ 9 ∷ 8 ∷ 8 ∷ 8 ∷ 10 ∷ 0 ∷ 8 ∷ 8 ∷ 0 ∷ 8 ∷ 0 ∷ 0 ∷ 8 ∷ 8
    ∷ 14 ∷ 0 ∷ 8 ∷ 0 ∷ 0 ∷ 8 ∷ 8 ∷ 8 ∷ 8 ∷ 0 ∷ 9 ∷ 0 ∷ 8 ∷ 0 ∷ 8 ∷ 8 ∷ 8 ∷ 13 ∷ 0 ∷ 8 ∷ 0 ∷ 8 ∷ 0
    ∷ 0 ∷ 0 ∷ 0 ∷ 8 ∷ 4 ∷ 8 ∷ 0 ∷ 4 ∷ 8 ∷ 14 ∷ 0 ∷ 8 ∷ 13 ∷ 13 ∷ 13 ∷ 4 ∷ 0 ∷ 13 ∷ 0 ∷ 0 ∷ 13 ∷ 5
    ∷ 13 ∷ 0 ∷ 0 ∷ 5 ∷ 0 ∷ 0 ∷ 0 ∷ 8 ∷ 0 ∷ 3 ∷ 0 ∷ 8 ∷ 0 ∷ 0 ∷ 0 ∷ 8 ∷ 0 ∷ 8 ∷ 8 ∷ 0 ∷ 0 ∷ 0 ∷ 0 ∷ 0
    ∷ 0 ∷ 8 ∷ 8 ∷ 8 ∷ 0 ∷ 0 ∷ 0 ∷ 8 ∷ 0 ∷ 3 ∷ 0 ∷ 8 ∷ 0 ∷ 0 ∷ 0 ∷ 8 ∷ 3 ∷ 8 ∷ 0 ∷ 3 ∷ 9 ∷ 0 ∷ 0 ∷ 7
    ∷ 8 ∷ 8 ∷ 8 ∷ 8 ∷ 9 ∷ 0 ∷ 2 ∷ 8 ∷ 3 ∷ 8 ∷ 0 ∷ 0 ∷ 8 ∷ 8 ∷ 8 ∷ 0 ∷ 0 ∷ 0 ∷ 8 ∷ 0 ∷ 0 ∷ 8 ∷ 8 ∷ 8
    ∷ 8 ∷ 6 ∷ 0 ∷ 0 ∷ 0 ∷ 0 ∷ 8 ∷ 8 ∷ 8 ∷ 8 ∷ 8 ∷ 14 ∷ 6 ∷ 0 ∷ 0 ∷ 0 ∷ 0 ∷ 8 ∷ 8 ∷ 0 ∷ 9 ∷ 0 ∷ 7 ∷ 0
    ∷ 0 ∷ 8 ∷ 8 ∷ 0 ∷ 8 ∷ 0 ∷ 8 ∷ 0 ∷ 8 ∷ 0 ∷ 0 ∷ 8 ∷ 8 ∷ 8 ∷ 8 ∷ 0 ∷ 0 ∷ 3 ∷ 8 ∷ 0 ∷ 8 ∷ 8 ∷ 8 ∷ 0
    ∷ 8 ∷ 0 ∷ 3 ∷ 0 ∷ 0 ∷ 8 ∷ 8 ∷ 0 ∷ 8 ∷ 0 ∷ 0 ∷ 0 ∷ 0 ∷ 0 ∷ 8 ∷ 0 ∷ 0 ∷ 8 ∷ 15 ∷ 0 ∷ 0 ∷ 15 ∷ 0
    ∷ 8 ∷ 0 ∷ 8 ∷ 8 ∷ 7 ∷ 0 ∷ 15 ∷ 0 ∷ 8 ∷ 8 ∷ 0 ∷ 15 ∷ 0 ∷ 15 ∷ 8 ∷ 8 ∷ 8 ∷ 0 ∷ 3 ∷ 0 ∷ 0 ∷ 0 ∷ 3
    ∷ 0 ∷ 8 ∷ 3 ∷ 0 ∷ 8 ∷ 0 ∷ 0 ∷ 3 ∷ 4 ∷ 0 ∷ 0 ∷ 3 ∷ 0 ∷ 8 ∷ 8 ∷ 13 ∷ 8 ∷ 13 ∷ 13 ∷ 8 ∷ 8 ∷ 8 ∷ 0
    ∷ 13 ∷ 5 ∷ 13 ∷ 13 ∷ 13 ∷ 8 ∷ 8 ∷ 8 ∷ 8 ∷ 8 ∷ 8 ∷ 0 ∷ 8 ∷ 0 ∷ 8 ∷ 0 ∷ 8 ∷ 8 ∷ 0 ∷ 8 ∷ 0 ∷ 8 ∷ 8
    ∷ 8 ∷ 8 ∷ 8 ∷ 0 ∷ 0 ∷ 8 ∷ 0 ∷ 8 ∷ 8 ∷ 0 ∷ 8 ∷ 0 ∷ 8 ∷ 0 ∷ 0 ∷ 0 ∷ 8 ∷ 8 ∷ 8 ∷ 8 ∷ 8 ∷ 8 ∷ 0 ∷ 0
    ∷ 0 ∷ 8 ∷ 0 ∷ 8 ∷ 0 ∷ 8 ∷ 0 ∷ 8 ∷ 8 ∷ 13 ∷ 8 ∷ 5 ∷ 5 ∷ 8 ∷ 0 ∷ 3 ∷ 0 ∷ 5 ∷ 5 ∷ 5 ∷ 13 ∷ 13 ∷ 3
    ∷ 8 ∷ 8 ∷ 0 ∷ 8 ∷ 0 ∷ 8 ∷ 8 ∷ 3 ∷ 8 ∷ 0 ∷ 8 ∷ 8 ∷ 8 ∷ 0 ∷ 0 ∷ 0 ∷ 0 ∷ 8 ∷ 8 ∷ 8 ∷ 0 ∷ 0 ∷ 8 ∷ 0
    ∷ 8 ∷ 0 ∷ 0 ∷ 8 ∷ 8 ∷ 8 ∷ 0 ∷ 0 ∷ 0 ∷ 8 ∷ 0 ∷ 9 ∷ 0 ∷ 5 ∷ 0 ∷ 8 ∷ 0 ∷ 0 ∷ 0 ∷ 8 ∷ 0 ∷ 5 ∷ 0 ∷ 0
    ∷ 0 ∷ 0 ∷ 0 ∷ 8 ∷ 8 ∷ 8 ∷ 0 ∷ 2 ∷ 0 ∷ 0 ∷ 8 ∷ 8 ∷ 8 ∷ 8 ∷ 0 ∷ 0 ∷ 0 ∷ 0 ∷ 7 ∷ 3 ∷ 3 ∷ 0 ∷ 4 ∷ 15
    ∷ 8 ∷ 0 ∷ 0 ∷ 8 ∷ 8 ∷ 8 ∷ 8 ∷ 0 ∷ 8 ∷ 0 ∷ 8 ∷ 8 ∷ 8 ∷ 0 ∷ 8 ∷ 0 ∷ 8 ∷ 0 ∷ 0 ∷ 8 ∷ 0 ∷ 0 ∷ 8 ∷ 0
    ∷ 8 ∷ 0 ∷ 8 ∷ 3 ∷ 0 ∷ 0 ∷ 3 ∷ 0 ∷ 8 ∷ 0 ∷ 8 ∷ 8 ∷ 8 ∷ 0 ∷ 0 ∷ 15 ∷ 0 ∷ 0 ∷ 8 ∷ 8 ∷ 8 ∷ 8 ∷ 8 ∷ 0
    ∷ 0 ∷ 0 ∷ 8 ∷ 0 ∷ 8 ∷ 0 ∷ 0 ∷ 0 ∷ 0 ∷ 0 ∷ 8 ∷ 0 ∷ 5 ∷ 0 ∷ 8 ∷ 8 ∷ 8 ∷ 0 ∷ 8 ∷ 8 ∷ 15 ∷ 8 ∷ 15
    ∷ 15 ∷ 0 ∷ 0 ∷ 0 ∷ 0 ∷ 8 ∷ 8 ∷ 0 ∷ 0 ∷ 8 ∷ 0 ∷ 8 ∷ 8 ∷ 8 ∷ 0 ∷ 8 ∷ 8 ∷ 0 ∷ 0 ∷ 0 ∷ 0 ∷ 0 ∷ 0 ∷ 0
    ∷ 0 ∷ 0 ∷ 0 ∷ 0 ∷ 0 ∷ 0 ∷ 0 ∷ 0 ∷ 0 ∷ 0 ∷ 0 ∷ 0 ∷ 0 ∷ 0 ∷ 0 ∷ 0 ∷ 0 ∷ 0 ∷ 0 ∷ 0 ∷ 0 ∷ 0 ∷ 0 ∷ 0
    ∷ 0 ∷ 0 ∷ 0 ∷ 0 ∷ 0 ∷ 0 ∷ 0 ∷ 0 ∷ 0 ∷ 0 ∷ 0 ∷ 0 ∷ 0 ∷ 0 ∷ 0 ∷ 0 ∷ 0 ∷ 0 ∷ 0 ∷ 0 ∷ 0 ∷ 0 ∷ 0 ∷ 0
    ∷ 0 ∷ 0 ∷ 0 ∷ 0 ∷ 0 ∷ 0 ∷ 0 ∷ 0 ∷ 0 ∷ 0 ∷ 0 ∷ 0 ∷ 0 ∷ 0 ∷ 0 ∷ 0 ∷ 0 ∷ 0 ∷ 0 ∷ 0 ∷ 0 ∷ 0 ∷ 0 ∷ 0
    ∷ 0 ∷ 0 ∷ 0 ∷ 0 ∷ 0 ∷ 0 ∷ 0 ∷ 0 ∷ 0 ∷ 0 ∷ 0 ∷ 0 ∷ 0 ∷ 0 ∷ 0 ∷ 0 ∷ 0 ∷ 0 ∷ 0 ∷ 0 ∷ 0 ∷ 0 ∷ 0 ∷ 0
    ∷ 0 ∷ 0 ∷ 0 ∷ 0 ∷ 0 ∷ 0 ∷ 0 ∷ 0 ∷ 0 ∷ 0 ∷ 0 ∷ 0 ∷ 0 ∷ 0 ∷ 0 ∷ 0 ∷ 0 ∷ 0 ∷ 0 ∷ 0 ∷ 0 ∷ 0 ∷ 0 ∷ 0
    ∷ 0 ∷ 0 ∷ 0 ∷ 0 ∷ 0 ∷ 0 ∷ 0 ∷ 0 ∷ 0 ∷ 0 ∷ 0 ∷ 0 ∷ 0 ∷ 0 ∷ 0 ∷ 0 ∷ 0 ∷ 0 ∷ 0 ∷ 0 ∷ 0 ∷ 0 ∷ 0 ∷ 0
    ∷ 0 ∷ 0 ∷ 0 ∷ 0 ∷ 0 ∷ 0 ∷ 0 ∷ 0 ∷ 0 ∷ 0 ∷ 0 ∷ 0 ∷ 0 ∷ 0 ∷ 0 ∷ 0 ∷ 0 ∷ 0 ∷ 0 ∷ 0 ∷ 0 ∷ 0 ∷ 0 ∷ 0
    ∷ 0 ∷ 0 ∷ 0 ∷ 0 ∷ 0 ∷ 0 ∷ 0 ∷ 0 ∷ 0 ∷ 0 ∷ 0 ∷ 0 ∷ 0 ∷ 0 ∷ 0 ∷ 0 ∷ 0 ∷ 0 ∷ 0 ∷ 0 ∷ 0 ∷ 0 ∷ 0 ∷ 0
    ∷ 0 ∷ 0 ∷ 0 ∷ 0 ∷ 0 ∷ 0 ∷ 0 ∷ 0 ∷ 0 ∷ 0 ∷ 0 ∷ 0 ∷ 0 ∷ 0 ∷ 0 ∷ 0 ∷ 0 ∷ 0 ∷ 0 ∷ 0 ∷ 0 ∷ 0 ∷ 0 ∷ 0
    ∷ 0 ∷ 0 ∷ 0 ∷ 0 ∷ 0 ∷ 0 ∷ 0 ∷ 0 ∷ 0 ∷ 0 ∷ 0 ∷ 0 ∷ 0 ∷ 0 ∷ 0 ∷ 0 ∷ 0 ∷ 0 ∷ 0 ∷ 0 ∷ 0 ∷ 0 ∷ 0 ∷ 0
    ∷ 0 ∷ 0 ∷ 0 ∷ 0 ∷ 0 ∷ 0 ∷ 0 ∷ 0 ∷ 0 ∷ 0 ∷ 0 ∷ 0 ∷ 0 ∷ 0 ∷ 0 ∷ 0 ∷ 0 ∷ 0 ∷ 0 ∷ 0 ∷ 0 ∷ 0 ∷ 0 ∷ 0
    ∷ 0 ∷ 0 ∷ 0 ∷ 0 ∷ 0 ∷ 0 ∷ 0 ∷ 0 ∷ 0 ∷ 0 ∷ 0 ∷ 0 ∷ 0 ∷ 0 ∷ 0 ∷ 0 ∷ 0 ∷ 0 ∷ 0 ∷ 0 ∷ 0 ∷ 0 ∷ 0 ∷ 0
    ∷ 0 ∷ 0 ∷ 0 ∷ 0 ∷ 0 ∷ 0 ∷ 0 ∷ 0 ∷ 0 ∷ 0 ∷ 0 ∷ 0 ∷ 0 ∷ 0 ∷ 0 ∷ 0 ∷ 0 ∷ 0 ∷ 0 ∷ 0 ∷ 0 ∷ 0 ∷ 0 ∷ 0
    ∷ 0 ∷ 0 ∷ 0 ∷ 0 ∷ 0 ∷ 0 ∷ 0 ∷ 0 ∷ 0 ∷ 0 ∷ 0 ∷ 0 ∷ 0 ∷ 0 ∷ 0 ∷ 0 ∷ 0 ∷ 0 ∷ 0 ∷ 0 ∷ 0 ∷ 0 ∷ 0 ∷ 0
    ∷ 0 ∷ 0 ∷ 0 ∷ 0 ∷ 0 ∷ 0 ∷ 0 ∷ 0 ∷ 0 ∷ 0 ∷ 0 ∷ 0 ∷ 0 ∷ 0 ∷ 0 ∷ 0 ∷ 0 ∷ 0 ∷ 0 ∷ 0 ∷ 0 ∷ 0 ∷ 0 ∷ 0
    ∷ 0 ∷ 0 ∷ 0 ∷ 0 ∷ 0 ∷ 0 ∷ 0 ∷ 0 ∷ 0 ∷ 0 ∷ 0 ∷ 0 ∷ 0 ∷ 0 ∷ 0 ∷ 0 ∷ 0 ∷ 0 ∷ 0 ∷ 0 ∷ 0 ∷ 0 ∷ 0 ∷ 0
    ∷ 0 ∷ 0 ∷ 0 ∷ 0 ∷ 0 ∷ 0 ∷ 0 ∷ 0 ∷ 0 ∷ 0 ∷ 0 ∷ 0 ∷ 0 ∷ 0 ∷ 0 ∷ 0 ∷ 0 ∷ 0 ∷ 0 ∷ 0 ∷ 0 ∷ 0 ∷ 0 ∷ 0
    ∷ 0 ∷ 0 ∷ 0 ∷ 0 ∷ 0 ∷ 0 ∷ 0 ∷ 0 ∷ 0 ∷ 0 ∷ 0 ∷ 0 ∷ 0 ∷ 0 ∷ 0 ∷ 0 ∷ 0 ∷ 0 ∷ 0 ∷ 0 ∷ 0 ∷ 0 ∷ 0 ∷ 0
    ∷ 0 ∷ 0 ∷ 0 ∷ 0 ∷ 0 ∷ 0 ∷ 0 ∷ 0 ∷ 0 ∷ 0 ∷ 0 ∷ 0 ∷ 0 ∷ 0 ∷ 0 ∷ 0 ∷ 0 ∷ 0 ∷ 0 ∷ 0 ∷ 0 ∷ 0 ∷ 0 ∷ 0
    ∷ 0 ∷ 0 ∷ 0 ∷ 0 ∷ 0 ∷ 0 ∷ 0 ∷ 0 ∷ 0 ∷ 0 ∷ 0 ∷ 0 ∷ 0 ∷ 0 ∷ 0 ∷ 0 ∷ 0 ∷ 0 ∷ 0 ∷ 0 ∷ 0 ∷ 0 ∷ 0 ∷ 0
    ∷ 0 ∷ 0 ∷ 0 ∷ 0 ∷ 0 ∷ 0 ∷ 0 ∷ 0 ∷ 0 ∷ 0 ∷ 0 ∷ 0 ∷ 0 ∷ 0 ∷ 0 ∷ 0 ∷ 0 ∷ 0 ∷ 0 ∷ 0 ∷ 0 ∷ 0 ∷ 0 ∷ 0
    ∷ 0 ∷ 0 ∷ 0 ∷ []
