-- ===== src/Kd11ea/Ucode/E99.antt =====
-- One of the twelve PROMs of the control store, four bits of each micro-word
-- (pdp11/kd11ea/roms/rom_images.h).
use ll.Prelude.{ℕ, List, [], ◌∷◌}

unfoldable pub m8266_e99_ucode_rom : List ℕ
m8266_e99_ucode_rom =
    5 ∷ 5 ∷ 6 ∷ 5 ∷ 6 ∷ 5 ∷ 5 ∷ 6 ∷ 5 ∷ 5 ∷ 5 ∷ 5 ∷ 5 ∷ 5 ∷ 5 ∷ 5 ∷ 5 ∷ 5 ∷ 5 ∷ 5 ∷ 5 ∷ 1 ∷ 5 ∷ 4
    ∷ 5 ∷ 5 ∷ 5 ∷ 5 ∷ 4 ∷ 4 ∷ 5 ∷ 8 ∷ 5 ∷ 5 ∷ 5 ∷ 5 ∷ 5 ∷ 1 ∷ 5 ∷ 4 ∷ 5 ∷ 5 ∷ 5 ∷ 4 ∷ 4 ∷ 4 ∷ 5 ∷ 8
    ∷ 5 ∷ 5 ∷ 5 ∷ 5 ∷ 4 ∷ 4 ∷ 5 ∷ 5 ∷ 5 ∷ 5 ∷ 5 ∷ 5 ∷ 5 ∷ 5 ∷ 5 ∷ 5 ∷ 5 ∷ 5 ∷ 5 ∷ 5 ∷ 6 ∷ 4 ∷ 5 ∷ 5
    ∷ 5 ∷ 5 ∷ 5 ∷ 5 ∷ 5 ∷ 5 ∷ 5 ∷ 4 ∷ 5 ∷ 5 ∷ 5 ∷ 5 ∷ 4 ∷ 5 ∷ 5 ∷ 8 ∷ 4 ∷ 5 ∷ 5 ∷ 5 ∷ 8 ∷ 8 ∷ 5 ∷ 5
    ∷ 5 ∷ 5 ∷ 5 ∷ 5 ∷ 5 ∷ 4 ∷ 5 ∷ 8 ∷ 6 ∷ 5 ∷ 5 ∷ 5 ∷ 8 ∷ 8 ∷ 5 ∷ 4 ∷ 5 ∷ 5 ∷ 5 ∷ 5 ∷ 5 ∷ 4 ∷ 5 ∷ 4
    ∷ 6 ∷ 5 ∷ 5 ∷ 5 ∷ 5 ∷ 4 ∷ 5 ∷ 5 ∷ 9 ∷ 5 ∷ 7 ∷ 5 ∷ 5 ∷ 6 ∷ 2 ∷ 0 ∷ 8 ∷ 8 ∷ 5 ∷ 5 ∷ 6 ∷ 4 ∷ 8 ∷ 0
    ∷ 9 ∷ 5 ∷ 5 ∷ 4 ∷ 7 ∷ 5 ∷ 5 ∷ 7 ∷ 5 ∷ 5 ∷ 5 ∷ 5 ∷ 7 ∷ 4 ∷ 7 ∷ 5 ∷ 2 ∷ 5 ∷ 5 ∷ 6 ∷ 14 ∷ 5 ∷ 4 ∷ 3
    ∷ 5 ∷ 6 ∷ 6 ∷ 2 ∷ 5 ∷ 4 ∷ 5 ∷ 14 ∷ 4 ∷ 4 ∷ 7 ∷ 7 ∷ 7 ∷ 5 ∷ 8 ∷ 0 ∷ 3 ∷ 7 ∷ 6 ∷ 2 ∷ 7 ∷ 5 ∷ 6 ∷ 0
    ∷ 7 ∷ 7 ∷ 5 ∷ 5 ∷ 5 ∷ 6 ∷ 4 ∷ 6 ∷ 7 ∷ 7 ∷ 7 ∷ 7 ∷ 7 ∷ 5 ∷ 5 ∷ 0 ∷ 1 ∷ 1 ∷ 0 ∷ 5 ∷ 5 ∷ 5 ∷ 4 ∷ 2
    ∷ 7 ∷ 7 ∷ 8 ∷ 4 ∷ 2 ∷ 8 ∷ 7 ∷ 12 ∷ 5 ∷ 5 ∷ 8 ∷ 8 ∷ 2 ∷ 7 ∷ 4 ∷ 6 ∷ 7 ∷ 5 ∷ 8 ∷ 6 ∷ 2 ∷ 8 ∷ 5 ∷ 5
    ∷ 7 ∷ 6 ∷ 0 ∷ 4 ∷ 7 ∷ 7 ∷ 4 ∷ 7 ∷ 6 ∷ 5 ∷ 6 ∷ 5 ∷ 7 ∷ 5 ∷ 7 ∷ 6 ∷ 5 ∷ 5 ∷ 5 ∷ 5 ∷ 5 ∷ 5 ∷ 3 ∷ 4
    ∷ 5 ∷ 5 ∷ 5 ∷ 5 ∷ 5 ∷ 8 ∷ 5 ∷ 6 ∷ 5 ∷ 4 ∷ 5 ∷ 5 ∷ 5 ∷ 4 ∷ 4 ∷ 8 ∷ 5 ∷ 5 ∷ 5 ∷ 5 ∷ 5 ∷ 5 ∷ 5 ∷ 4
    ∷ 5 ∷ 5 ∷ 5 ∷ 5 ∷ 4 ∷ 6 ∷ 5 ∷ 5 ∷ 4 ∷ 5 ∷ 5 ∷ 5 ∷ 5 ∷ 8 ∷ 4 ∷ 4 ∷ 5 ∷ 4 ∷ 5 ∷ 5 ∷ 4 ∷ 5 ∷ 5 ∷ 8
    ∷ 5 ∷ 5 ∷ 5 ∷ 5 ∷ 5 ∷ 6 ∷ 4 ∷ 4 ∷ 5 ∷ 4 ∷ 5 ∷ 5 ∷ 5 ∷ 5 ∷ 8 ∷ 5 ∷ 5 ∷ 5 ∷ 5 ∷ 5 ∷ 5 ∷ 4 ∷ 8 ∷ 4
    ∷ 5 ∷ 8 ∷ 5 ∷ 5 ∷ 5 ∷ 4 ∷ 5 ∷ 4 ∷ 5 ∷ 5 ∷ 5 ∷ 5 ∷ 5 ∷ 5 ∷ 4 ∷ 8 ∷ 5 ∷ 5 ∷ 5 ∷ 5 ∷ 4 ∷ 5 ∷ 4 ∷ 4
    ∷ 5 ∷ 5 ∷ 5 ∷ 5 ∷ 5 ∷ 5 ∷ 8 ∷ 5 ∷ 5 ∷ 8 ∷ 5 ∷ 5 ∷ 8 ∷ 4 ∷ 5 ∷ 5 ∷ 5 ∷ 5 ∷ 5 ∷ 5 ∷ 5 ∷ 4 ∷ 5 ∷ 8
    ∷ 7 ∷ 0 ∷ 5 ∷ 5 ∷ 8 ∷ 5 ∷ 0 ∷ 5 ∷ 4 ∷ 7 ∷ 4 ∷ 5 ∷ 0 ∷ 5 ∷ 8 ∷ 5 ∷ 6 ∷ 4 ∷ 7 ∷ 7 ∷ 6 ∷ 6 ∷ 4 ∷ 5
    ∷ 7 ∷ 7 ∷ 4 ∷ 8 ∷ 10 ∷ 5 ∷ 5 ∷ 5 ∷ 5 ∷ 11 ∷ 4 ∷ 5 ∷ 4 ∷ 1 ∷ 4 ∷ 5 ∷ 5 ∷ 8 ∷ 5 ∷ 5 ∷ 5 ∷ 5 ∷ 4
    ∷ 5 ∷ 5 ∷ 9 ∷ 7 ∷ 6 ∷ 5 ∷ 5 ∷ 5 ∷ 5 ∷ 5 ∷ 7 ∷ 4 ∷ 8 ∷ 10 ∷ 5 ∷ 3 ∷ 5 ∷ 8 ∷ 13 ∷ 5 ∷ 4 ∷ 7 ∷ 5
    ∷ 4 ∷ 5 ∷ 0 ∷ 6 ∷ 5 ∷ 4 ∷ 6 ∷ 6 ∷ 8 ∷ 5 ∷ 7 ∷ 7 ∷ 7 ∷ 4 ∷ 6 ∷ 6 ∷ 5 ∷ 5 ∷ 5 ∷ 8 ∷ 5 ∷ 4 ∷ 5 ∷ 7
    ∷ 7 ∷ 5 ∷ 6 ∷ 4 ∷ 5 ∷ 4 ∷ 5 ∷ 0 ∷ 4 ∷ 5 ∷ 0 ∷ 5 ∷ 7 ∷ 5 ∷ 6 ∷ 6 ∷ 8 ∷ 5 ∷ 7 ∷ 4 ∷ 7 ∷ 5 ∷ 4 ∷ 5
    ∷ 4 ∷ 5 ∷ 6 ∷ 5 ∷ 6 ∷ 5 ∷ 5 ∷ 5 ∷ 5 ∷ 5 ∷ 0 ∷ 0 ∷ 0 ∷ 0 ∷ 0 ∷ 0 ∷ 0 ∷ 0 ∷ 0 ∷ 0 ∷ 0 ∷ 0 ∷ 0 ∷ 0
    ∷ 0 ∷ 0 ∷ 0 ∷ 0 ∷ 0 ∷ 0 ∷ 0 ∷ 0 ∷ 0 ∷ 0 ∷ 0 ∷ 0 ∷ 0 ∷ 0 ∷ 0 ∷ 0 ∷ 0 ∷ 0 ∷ 0 ∷ 0 ∷ 0 ∷ 0 ∷ 0 ∷ 0
    ∷ 0 ∷ 0 ∷ 0 ∷ 0 ∷ 0 ∷ 0 ∷ 0 ∷ 0 ∷ 0 ∷ 0 ∷ 0 ∷ 0 ∷ 0 ∷ 0 ∷ 0 ∷ 0 ∷ 0 ∷ 0 ∷ 0 ∷ 0 ∷ 0 ∷ 0 ∷ 0 ∷ 0
    ∷ 0 ∷ 0 ∷ 0 ∷ 0 ∷ 0 ∷ 0 ∷ 0 ∷ 0 ∷ 0 ∷ 0 ∷ 0 ∷ 0 ∷ 0 ∷ 0 ∷ 0 ∷ 0 ∷ 0 ∷ 0 ∷ 0 ∷ 0 ∷ 0 ∷ 0 ∷ 0 ∷ 0
    ∷ 0 ∷ 0 ∷ 0 ∷ 0 ∷ 0 ∷ 0 ∷ 0 ∷ 0 ∷ 0 ∷ 0 ∷ 0 ∷ 0 ∷ 0 ∷ 0 ∷ 0 ∷ 0 ∷ 0 ∷ 0 ∷ 0 ∷ 0 ∷ 0 ∷ 0 ∷ 0 ∷ 0
    ∷ 0 ∷ 0 ∷ 0 ∷ 0 ∷ 0 ∷ 0 ∷ 0 ∷ 0 ∷ 0 ∷ 0 ∷ 0 ∷ 0 ∷ 0 ∷ 0 ∷ 0 ∷ 0 ∷ 0 ∷ 0 ∷ 0 ∷ 0 ∷ 0 ∷ 0 ∷ 0 ∷ 0
    ∷ 0 ∷ 0 ∷ 0 ∷ 0 ∷ 0 ∷ 0 ∷ 0 ∷ 0 ∷ 0 ∷ 0 ∷ 0 ∷ 0 ∷ 0 ∷ 0 ∷ 0 ∷ 0 ∷ 0 ∷ 0 ∷ 0 ∷ 0 ∷ 0 ∷ 0 ∷ 0 ∷ 0
    ∷ 0 ∷ 0 ∷ 0 ∷ 0 ∷ 0 ∷ 0 ∷ 0 ∷ 0 ∷ 0 ∷ 0 ∷ 0 ∷ 0 ∷ 0 ∷ 0 ∷ 0 ∷ 0 ∷ 0 ∷ 0 ∷ 0 ∷ 0 ∷ 0 ∷ 0 ∷ 0 ∷ 0
    ∷ 0 ∷ 0 ∷ 0 ∷ 0 ∷ 0 ∷ 0 ∷ 0 ∷ 0 ∷ 0 ∷ 0 ∷ 0 ∷ 0 ∷ 0 ∷ 0 ∷ 0 ∷ 0 ∷ 0 ∷ 0 ∷ 0 ∷ 0 ∷ 0 ∷ 0 ∷ 0 ∷ 0
    ∷ 0 ∷ 0 ∷ 0 ∷ 0 ∷ 0 ∷ 0 ∷ 0 ∷ 0 ∷ 0 ∷ 0 ∷ 0 ∷ 0 ∷ 0 ∷ 0 ∷ 0 ∷ 0 ∷ 0 ∷ 0 ∷ 0 ∷ 0 ∷ 0 ∷ 0 ∷ 0 ∷ 0
    ∷ 0 ∷ 0 ∷ 0 ∷ 0 ∷ 0 ∷ 0 ∷ 0 ∷ 0 ∷ 0 ∷ 0 ∷ 0 ∷ 0 ∷ 0 ∷ 0 ∷ 0 ∷ 0 ∷ 0 ∷ 0 ∷ 0 ∷ 0 ∷ 0 ∷ 0 ∷ 0 ∷ 0
    ∷ 0 ∷ 0 ∷ 0 ∷ 0 ∷ 0 ∷ 0 ∷ 0 ∷ 0 ∷ 0 ∷ 0 ∷ 0 ∷ 0 ∷ 0 ∷ 0 ∷ 0 ∷ 0 ∷ 0 ∷ 0 ∷ 0 ∷ 0 ∷ 0 ∷ 0 ∷ 0 ∷ 0
    ∷ 0 ∷ 0 ∷ 0 ∷ 0 ∷ 0 ∷ 0 ∷ 0 ∷ 0 ∷ 0 ∷ 0 ∷ 0 ∷ 0 ∷ 0 ∷ 0 ∷ 0 ∷ 0 ∷ 0 ∷ 0 ∷ 0 ∷ 0 ∷ 0 ∷ 0 ∷ 0 ∷ 0
    ∷ 0 ∷ 0 ∷ 0 ∷ 0 ∷ 0 ∷ 0 ∷ 0 ∷ 0 ∷ 0 ∷ 0 ∷ 0 ∷ 0 ∷ 0 ∷ 0 ∷ 0 ∷ 0 ∷ 0 ∷ 0 ∷ 0 ∷ 0 ∷ 0 ∷ 0 ∷ 0 ∷ 0
    ∷ 0 ∷ 0 ∷ 0 ∷ 0 ∷ 0 ∷ 0 ∷ 0 ∷ 0 ∷ 0 ∷ 0 ∷ 0 ∷ 0 ∷ 0 ∷ 0 ∷ 0 ∷ 0 ∷ 0 ∷ 0 ∷ 0 ∷ 0 ∷ 0 ∷ 0 ∷ 0 ∷ 0
    ∷ 0 ∷ 0 ∷ 0 ∷ 0 ∷ 0 ∷ 0 ∷ 0 ∷ 0 ∷ 0 ∷ 0 ∷ 0 ∷ 0 ∷ 0 ∷ 0 ∷ 0 ∷ 0 ∷ 0 ∷ 0 ∷ 0 ∷ 0 ∷ 0 ∷ 0 ∷ 0 ∷ 0
    ∷ 0 ∷ 0 ∷ 0 ∷ 0 ∷ 0 ∷ 0 ∷ 0 ∷ 0 ∷ 0 ∷ 0 ∷ 0 ∷ 0 ∷ 0 ∷ 0 ∷ 0 ∷ 0 ∷ 0 ∷ 0 ∷ 0 ∷ 0 ∷ 0 ∷ 0 ∷ 0 ∷ 0
    ∷ 0 ∷ 0 ∷ 0 ∷ 0 ∷ 0 ∷ 0 ∷ 0 ∷ 0 ∷ 0 ∷ 0 ∷ 0 ∷ 0 ∷ 0 ∷ 0 ∷ 0 ∷ 0 ∷ 0 ∷ 0 ∷ 0 ∷ 0 ∷ 0 ∷ 0 ∷ 0 ∷ 0
    ∷ 0 ∷ 0 ∷ 0 ∷ 0 ∷ 0 ∷ 0 ∷ 0 ∷ 0 ∷ 0 ∷ 0 ∷ 0 ∷ 0 ∷ 0 ∷ 0 ∷ 0 ∷ 0 ∷ 0 ∷ 0 ∷ 0 ∷ 0 ∷ 0 ∷ 0 ∷ 0 ∷ 0
    ∷ 0 ∷ 0 ∷ 0 ∷ 0 ∷ 0 ∷ 0 ∷ 0 ∷ 0 ∷ 0 ∷ 0 ∷ 0 ∷ 0 ∷ 0 ∷ 0 ∷ 0 ∷ 0 ∷ 0 ∷ 0 ∷ 0 ∷ 0 ∷ 0 ∷ 0 ∷ 0 ∷ 0
    ∷ 0 ∷ 0 ∷ 0 ∷ 0 ∷ 0 ∷ 0 ∷ 0 ∷ 0 ∷ 0 ∷ 0 ∷ 0 ∷ 0 ∷ 0 ∷ 0 ∷ 0 ∷ 0 ∷ 0 ∷ 0 ∷ 0 ∷ 0 ∷ 0 ∷ 0 ∷ 0 ∷ 0
    ∷ 0 ∷ 0 ∷ 0 ∷ 0 ∷ 0 ∷ 0 ∷ 0 ∷ 0 ∷ 0 ∷ 0 ∷ 0 ∷ 0 ∷ 0 ∷ 0 ∷ 0 ∷ 0 ∷ 0 ∷ 0 ∷ []
