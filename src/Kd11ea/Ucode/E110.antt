-- ===== src/Kd11ea/Ucode/E110.antt =====
-- One of the twelve PROMs of the control store, four bits of each micro-word
-- (pdp11/kd11ea/roms/rom_images.h).
use ll.Prelude.{ℕ, List, [], ◌∷◌}

unfoldable pub m8266_e110_ucode_rom : List ℕ
m8266_e110_ucode_rom =
    0 ∷ 9 ∷ 11 ∷ 13 ∷ 10 ∷ 4 ∷ 12 ∷ 0 ∷ 13 ∷ 1 ∷ 7 ∷ 14 ∷ 0 ∷ 6 ∷ 12 ∷ 6 ∷ 10 ∷ 2 ∷ 0 ∷ 2 ∷ 0 ∷ 6
    ∷ 4 ∷ 6 ∷ 0 ∷ 2 ∷ 0 ∷ 2 ∷ 4 ∷ 6 ∷ 4 ∷ 6 ∷ 0 ∷ 0 ∷ 6 ∷ 13 ∷ 11 ∷ 6 ∷ 11 ∷ 6 ∷ 0 ∷ 4 ∷ 7 ∷ 14 ∷ 4
    ∷ 6 ∷ 12 ∷ 6 ∷ 11 ∷ 7 ∷ 6 ∷ 13 ∷ 4 ∷ 5 ∷ 11 ∷ 6 ∷ 0 ∷ 4 ∷ 7 ∷ 14 ∷ 4 ∷ 6 ∷ 12 ∷ 6 ∷ 8 ∷ 9 ∷ 0
    ∷ 13 ∷ 4 ∷ 6 ∷ 12 ∷ 6 ∷ 13 ∷ 1 ∷ 7 ∷ 14 ∷ 1 ∷ 5 ∷ 12 ∷ 6 ∷ 7 ∷ 7 ∷ 6 ∷ 13 ∷ 1 ∷ 6 ∷ 11 ∷ 6 ∷ 0
    ∷ 4 ∷ 7 ∷ 14 ∷ 4 ∷ 6 ∷ 12 ∷ 6 ∷ 0 ∷ 7 ∷ 6 ∷ 13 ∷ 0 ∷ 6 ∷ 11 ∷ 0 ∷ 9 ∷ 4 ∷ 7 ∷ 14 ∷ 4 ∷ 6 ∷ 12
    ∷ 6 ∷ 11 ∷ 7 ∷ 6 ∷ 13 ∷ 4 ∷ 6 ∷ 11 ∷ 6 ∷ 9 ∷ 4 ∷ 7 ∷ 14 ∷ 0 ∷ 6 ∷ 12 ∷ 7 ∷ 8 ∷ 10 ∷ 8 ∷ 0 ∷ 12
    ∷ 11 ∷ 0 ∷ 15 ∷ 8 ∷ 10 ∷ 9 ∷ 8 ∷ 14 ∷ 14 ∷ 12 ∷ 15 ∷ 12 ∷ 11 ∷ 8 ∷ 0 ∷ 12 ∷ 0 ∷ 12 ∷ 14 ∷ 8 ∷ 10
    ∷ 10 ∷ 8 ∷ 10 ∷ 14 ∷ 12 ∷ 14 ∷ 8 ∷ 8 ∷ 8 ∷ 10 ∷ 8 ∷ 0 ∷ 12 ∷ 14 ∷ 8 ∷ 9 ∷ 14 ∷ 8 ∷ 8 ∷ 14 ∷ 12
    ∷ 14 ∷ 12 ∷ 10 ∷ 12 ∷ 12 ∷ 8 ∷ 4 ∷ 12 ∷ 15 ∷ 8 ∷ 10 ∷ 11 ∷ 10 ∷ 12 ∷ 14 ∷ 9 ∷ 15 ∷ 8 ∷ 13 ∷ 8
    ∷ 12 ∷ 12 ∷ 8 ∷ 12 ∷ 14 ∷ 12 ∷ 12 ∷ 12 ∷ 12 ∷ 0 ∷ 14 ∷ 12 ∷ 14 ∷ 8 ∷ 12 ∷ 9 ∷ 10 ∷ 12 ∷ 0 ∷ 12
    ∷ 11 ∷ 12 ∷ 12 ∷ 9 ∷ 10 ∷ 10 ∷ 14 ∷ 12 ∷ 14 ∷ 12 ∷ 8 ∷ 8 ∷ 0 ∷ 8 ∷ 14 ∷ 8 ∷ 9 ∷ 8 ∷ 10 ∷ 9 ∷ 0
    ∷ 8 ∷ 14 ∷ 8 ∷ 14 ∷ 8 ∷ 12 ∷ 8 ∷ 10 ∷ 12 ∷ 14 ∷ 12 ∷ 14 ∷ 12 ∷ 14 ∷ 12 ∷ 9 ∷ 0 ∷ 14 ∷ 11 ∷ 15
    ∷ 0 ∷ 4 ∷ 5 ∷ 0 ∷ 4 ∷ 7 ∷ 14 ∷ 7 ∷ 0 ∷ 1 ∷ 1 ∷ 7 ∷ 0 ∷ 7 ∷ 4 ∷ 4 ∷ 1 ∷ 3 ∷ 1 ∷ 3 ∷ 5 ∷ 7 ∷ 5 ∷ 7
    ∷ 1 ∷ 6 ∷ 1 ∷ 3 ∷ 5 ∷ 7 ∷ 5 ∷ 7 ∷ 5 ∷ 3 ∷ 5 ∷ 6 ∷ 4 ∷ 0 ∷ 5 ∷ 7 ∷ 4 ∷ 6 ∷ 5 ∷ 7 ∷ 9 ∷ 7 ∷ 5 ∷ 9
    ∷ 6 ∷ 3 ∷ 13 ∷ 6 ∷ 5 ∷ 7 ∷ 5 ∷ 7 ∷ 3 ∷ 6 ∷ 5 ∷ 7 ∷ 9 ∷ 1 ∷ 6 ∷ 7 ∷ 4 ∷ 3 ∷ 5 ∷ 5 ∷ 3 ∷ 7 ∷ 5 ∷ 7
    ∷ 4 ∷ 6 ∷ 4 ∷ 7 ∷ 10 ∷ 7 ∷ 5 ∷ 9 ∷ 5 ∷ 3 ∷ 5 ∷ 6 ∷ 4 ∷ 7 ∷ 0 ∷ 7 ∷ 3 ∷ 6 ∷ 5 ∷ 7 ∷ 9 ∷ 0 ∷ 4 ∷ 9
    ∷ 5 ∷ 4 ∷ 5 ∷ 6 ∷ 5 ∷ 0 ∷ 5 ∷ 7 ∷ 3 ∷ 6 ∷ 5 ∷ 7 ∷ 9 ∷ 7 ∷ 5 ∷ 9 ∷ 6 ∷ 5 ∷ 5 ∷ 6 ∷ 5 ∷ 7 ∷ 5 ∷ 7
    ∷ 3 ∷ 6 ∷ 13 ∷ 7 ∷ 10 ∷ 7 ∷ 6 ∷ 13 ∷ 9 ∷ 15 ∷ 9 ∷ 11 ∷ 9 ∷ 13 ∷ 9 ∷ 0 ∷ 15 ∷ 13 ∷ 10 ∷ 11 ∷ 9
    ∷ 0 ∷ 9 ∷ 0 ∷ 12 ∷ 12 ∷ 9 ∷ 9 ∷ 13 ∷ 0 ∷ 13 ∷ 0 ∷ 13 ∷ 13 ∷ 10 ∷ 12 ∷ 13 ∷ 0 ∷ 13 ∷ 0 ∷ 13 ∷ 0
    ∷ 0 ∷ 11 ∷ 5 ∷ 14 ∷ 5 ∷ 0 ∷ 13 ∷ 10 ∷ 4 ∷ 11 ∷ 15 ∷ 0 ∷ 13 ∷ 0 ∷ 9 ∷ 11 ∷ 9 ∷ 11 ∷ 15 ∷ 0 ∷ 13
    ∷ 0 ∷ 10 ∷ 11 ∷ 11 ∷ 12 ∷ 4 ∷ 0 ∷ 13 ∷ 0 ∷ 9 ∷ 0 ∷ 9 ∷ 0 ∷ 0 ∷ 0 ∷ 5 ∷ 0 ∷ 9 ∷ 11 ∷ 9 ∷ 11 ∷ 9
    ∷ 13 ∷ 13 ∷ 0 ∷ 12 ∷ 12 ∷ 12 ∷ 12 ∷ 10 ∷ 0 ∷ 13 ∷ 0 ∷ 9 ∷ 8 ∷ 10 ∷ 11 ∷ 10 ∷ 10 ∷ 13 ∷ 0 ∷ 12
    ∷ 12 ∷ 9 ∷ 12 ∷ 9 ∷ 14 ∷ 13 ∷ 0 ∷ 8 ∷ 11 ∷ 8 ∷ 11 ∷ 13 ∷ 15 ∷ 13 ∷ 0 ∷ 12 ∷ 0 ∷ 12 ∷ 12 ∷ 13 ∷ 0
    ∷ 13 ∷ 0 ∷ 12 ∷ 11 ∷ 12 ∷ 13 ∷ 13 ∷ 13 ∷ 14 ∷ 0 ∷ 0 ∷ 0 ∷ 0 ∷ 0 ∷ 0 ∷ 0 ∷ 0 ∷ 0 ∷ 0 ∷ 0 ∷ 0 ∷ 0
    ∷ 0 ∷ 0 ∷ 0 ∷ 0 ∷ 0 ∷ 0 ∷ 0 ∷ 0 ∷ 0 ∷ 0 ∷ 0 ∷ 0 ∷ 0 ∷ 0 ∷ 0 ∷ 0 ∷ 0 ∷ 0 ∷ 0 ∷ 0 ∷ 0 ∷ 0 ∷ 0 ∷ 0
    ∷ 0 ∷ 0 ∷ 0 ∷ 0 ∷ 0 ∷ 0 ∷ 0 ∷ 0 ∷ 0 ∷ 0 ∷ 0 ∷ 0 ∷ 0 ∷ 0 ∷ 0 ∷ 0 ∷ 0 ∷ 0 ∷ 0 ∷ 0 ∷ 0 ∷ 0 ∷ 0 ∷ 0
    ∷ 0 ∷ 0 ∷ 0 ∷ 0 ∷ 0 ∷ 0 ∷ 0 ∷ 0 ∷ 0 ∷ 0 ∷ 0 ∷ 0 ∷ 0 ∷ 0 ∷ 0 ∷ 0 ∷ 0 ∷ 0 ∷ 0 ∷ 0 ∷ 0 ∷ 0 ∷ 0 ∷ 0
    ∷ 0 ∷ 0 ∷ 0 ∷ 0 ∷ 0 ∷ 0 ∷ 0 ∷ 0 ∷ 0 ∷ 0 ∷ 0 ∷ 0 ∷ 0 ∷ 0 ∷ 0 ∷ 0 ∷ 0 ∷ 0 ∷ 0 ∷ 0 ∷ 0 ∷ 0 ∷ 0 ∷ 0
    ∷ 0 ∷ 0 ∷ 0 ∷ 0 ∷ 0 ∷ 0 ∷ 0 ∷ 0 ∷ 0 ∷ 0 ∷ 0 ∷ 0 ∷ 0 ∷ 0 ∷ 0 ∷ 0 ∷ 0 ∷ 0 ∷ 0 ∷ 0 ∷ 0 ∷ 0 ∷ 0 ∷ 0
    ∷ 0 ∷ 0 ∷ 0 ∷ 0 ∷ 0 ∷ 0 ∷ 0 ∷ 0 ∷ 0 ∷ 0 ∷ 0 ∷ 0 ∷ 0 ∷ 0 ∷ 0 ∷ 0 ∷ 0 ∷ 0 ∷ 0 ∷ 0 ∷ 0 ∷ 0 ∷ 0 ∷ 0
    ∷ 0 ∷ 0 ∷ 0 ∷ 0 ∷ 0 ∷ 0 ∷ 0 ∷ 0 ∷ 0 ∷ 0 ∷ 0 ∷ 0 ∷ 0 ∷ 0 ∷ 0 ∷ 0 ∷ 0 ∷ 0 ∷ 0 ∷ 0 ∷ 0 ∷ 0 ∷ 0 ∷ 0
    ∷ 0 ∷ 0 ∷ 0 ∷ 0 ∷ 0 ∷ 0 ∷ 0 ∷ 0 ∷ 0 ∷ 0 ∷ 0 ∷ 0 ∷ 0 ∷ 0 ∷ 0 ∷ 0 ∷ 0 ∷ 0 ∷ 0 ∷ 0 ∷ 0 ∷ 0 ∷ 0 ∷ 0
    ∷ 0 ∷ 0 ∷ 0 ∷ 0 ∷ 0 ∷ 0 ∷ 0 ∷ 0 ∷ 0 ∷ 0 ∷ 0 ∷ 0 ∷ 0 ∷ 0 ∷ 0 ∷ 0 ∷ 0 ∷ 0 ∷ 0 ∷ 0 ∷ 0 ∷ 0 ∷ 0 ∷ 0
    ∷ 0 ∷ 0 ∷ 0 ∷ 0 ∷ 0 ∷ 0 ∷ 0 ∷ 0 ∷ 0 ∷ 0 ∷ 0 ∷ 0 ∷ 0 ∷ 0 ∷ 0 ∷ 0 ∷ 0 ∷ 0 ∷ 0 ∷ 0 ∷ 0 ∷ 0 ∷ 0 ∷ 0
    ∷ 0 ∷ 0 ∷ 0 ∷ 0 ∷ 0 ∷ 0 ∷ 0 ∷ 0 ∷ 0 ∷ 0 ∷ 0 ∷ 0 ∷ 0 ∷ 0 ∷ 0 ∷ 0 ∷ 0 ∷ 0 ∷ 0 ∷ 0 ∷ 0 ∷ 0 ∷ 0 ∷ 0
    ∷ 0 ∷ 0 ∷ 0 ∷ 0 ∷ 0 ∷ 0 ∷ 0 ∷ 0 ∷ 0 ∷ 0 ∷ 0 ∷ 0 ∷ 0 ∷ 0 ∷ 0 ∷ 0 ∷ 0 ∷ 0 ∷ 0 ∷ 0 ∷ 0 ∷ 0 ∷ 0 ∷ 0
    ∷ 0 ∷ 0 ∷ 0 ∷ 0 ∷ 0 ∷ 0 ∷ 0 ∷ 0 ∷ 0 ∷ 0 ∷ 0 ∷ 0 ∷ 0 ∷ 0 ∷ 0 ∷ 0 ∷ 0 ∷ 0 ∷ 0 ∷ 0 ∷ 0 ∷ 0 ∷ 0 ∷ 0
    ∷ 0 ∷ 0 ∷ 0 ∷ 0 ∷ 0 ∷ 0 ∷ 0 ∷ 0 ∷ 0 ∷ 0 ∷ 0 ∷ 0 ∷ 0 ∷ 0 ∷ 0 ∷ 0 ∷ 0 ∷ 0 ∷ 0 ∷ 0 ∷ 0 ∷ 0 ∷ 0 ∷ 0
    ∷ 0 ∷ 0 ∷ 0 ∷ 0 ∷ 0 ∷ 0 ∷ 0 ∷ 0 ∷ 0 ∷ 0 ∷ 0 ∷ 0 ∷ 0 ∷ 0 ∷ 0 ∷ 0 ∷ 0 ∷ 0 ∷ 0 ∷ 0 ∷ 0 ∷ 0 ∷ 0 ∷ 0
    ∷ 0 ∷ 0 ∷ 0 ∷ 0 ∷ 0 ∷ 0 ∷ 0 ∷ 0 ∷ 0 ∷ 0 ∷ 0 ∷ 0 ∷ 0 ∷ 0 ∷ 0 ∷ 0 ∷ 0 ∷ 0 ∷ 0 ∷ 0 ∷ 0 ∷ 0 ∷ 0 ∷ 0
    ∷ 0 ∷ 0 ∷ 0 ∷ 0 ∷ 0 ∷ 0 ∷ 0 ∷ 0 ∷ 0 ∷ 0 ∷ 0 ∷ 0 ∷ 0 ∷ 0 ∷ 0 ∷ 0 ∷ 0 ∷ 0 ∷ 0 ∷ 0 ∷ 0 ∷ 0 ∷ 0 ∷ 0
    ∷ 0 ∷ 0 ∷ 0 ∷ 0 ∷ 0 ∷ 0 ∷ 0 ∷ 0 ∷ 0 ∷ 0 ∷ 0 ∷ 0 ∷ 0 ∷ 0 ∷ 0 ∷ 0 ∷ 0 ∷ 0 ∷ 0 ∷ 0 ∷ 0 ∷ 0 ∷ 0 ∷ 0
    ∷ 0 ∷ 0 ∷ 0 ∷ 0 ∷ 0 ∷ 0 ∷ 0 ∷ 0 ∷ 0 ∷ 0 ∷ 0 ∷ 0 ∷ 0 ∷ 0 ∷ 0 ∷ 0 ∷ 0 ∷ 0 ∷ 0 ∷ 0 ∷ 0 ∷ 0 ∷ 0 ∷ 0
    ∷ 0 ∷ 0 ∷ 0 ∷ 0 ∷ 0 ∷ 0 ∷ 0 ∷ 0 ∷ 0 ∷ 0 ∷ 0 ∷ 0 ∷ 0 ∷ 0 ∷ 0 ∷ 0 ∷ 0 ∷ 0 ∷ 0 ∷ 0 ∷ 0 ∷ 0 ∷ 0 ∷ 0
    ∷ 0 ∷ 0 ∷ 0 ∷ 0 ∷ 0 ∷ 0 ∷ 0 ∷ 0 ∷ 0 ∷ 0 ∷ 0 ∷ 0 ∷ 0 ∷ 0 ∷ 0 ∷ 0 ∷ 0 ∷ 0 ∷ 0 ∷ 0 ∷ []
