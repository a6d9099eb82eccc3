-- ===== src/Kd11ea/Ucode/E109.antt =====
-- One of the twelve PROMs of the control store, four bits of each micro-word
-- (pdp11/kd11ea/roms/rom_images.h).
use ll.Prelude.{ℕ, List, [], ◌∷◌}

unfoldable pub m8266_e109_ucode_rom : List ℕ
m8266_e109_ucode_rom =
    7 ∷ 9 ∷ 5 ∷ 14 ∷ 9 ∷ 7 ∷ 1 ∷ 0 ∷ 2 ∷ 0 ∷ 1 ∷ 2 ∷ 0 ∷ 4 ∷ 13 ∷ 15 ∷ 10 ∷ 0 ∷ 8 ∷ 8 ∷ 0 ∷ 2 ∷ 8
    ∷ 10 ∷ 5 ∷ 4 ∷ 12 ∷ 12 ∷ 6 ∷ 6 ∷ 12 ∷ 14 ∷ 6 ∷ 2 ∷ 7 ∷ 9 ∷ 15 ∷ 0 ∷ 9 ∷ 9 ∷ 6 ∷ 2 ∷ 2 ∷ 3 ∷ 5
    ∷ 5 ∷ 8 ∷ 15 ∷ 0 ∷ 14 ∷ 9 ∷ 11 ∷ 4 ∷ 10 ∷ 12 ∷ 8 ∷ 6 ∷ 5 ∷ 3 ∷ 5 ∷ 4 ∷ 4 ∷ 10 ∷ 15 ∷ 13 ∷ 6 ∷ 0
    ∷ 14 ∷ 1 ∷ 1 ∷ 1 ∷ 8 ∷ 2 ∷ 0 ∷ 6 ∷ 3 ∷ 0 ∷ 10 ∷ 13 ∷ 13 ∷ 12 ∷ 13 ∷ 8 ∷ 10 ∷ 0 ∷ 0 ∷ 11 ∷ 11 ∷ 0
    ∷ 3 ∷ 3 ∷ 4 ∷ 7 ∷ 7 ∷ 10 ∷ 15 ∷ 0 ∷ 13 ∷ 7 ∷ 10 ∷ 0 ∷ 2 ∷ 10 ∷ 0 ∷ 8 ∷ 3 ∷ 2 ∷ 4 ∷ 4 ∷ 4 ∷ 9
    ∷ 14 ∷ 1 ∷ 15 ∷ 10 ∷ 13 ∷ 4 ∷ 4 ∷ 14 ∷ 15 ∷ 8 ∷ 6 ∷ 4 ∷ 6 ∷ 0 ∷ 8 ∷ 11 ∷ 0 ∷ 1 ∷ 5 ∷ 6 ∷ 0 ∷ 0
    ∷ 3 ∷ 0 ∷ 0 ∷ 8 ∷ 6 ∷ 5 ∷ 12 ∷ 0 ∷ 7 ∷ 12 ∷ 0 ∷ 5 ∷ 8 ∷ 10 ∷ 0 ∷ 2 ∷ 0 ∷ 13 ∷ 14 ∷ 4 ∷ 5 ∷ 7
    ∷ 11 ∷ 12 ∷ 6 ∷ 15 ∷ 10 ∷ 1 ∷ 1 ∷ 6 ∷ 9 ∷ 0 ∷ 0 ∷ 13 ∷ 14 ∷ 6 ∷ 2 ∷ 12 ∷ 12 ∷ 8 ∷ 5 ∷ 13 ∷ 15
    ∷ 8 ∷ 4 ∷ 7 ∷ 7 ∷ 3 ∷ 7 ∷ 13 ∷ 0 ∷ 6 ∷ 5 ∷ 7 ∷ 11 ∷ 7 ∷ 7 ∷ 6 ∷ 1 ∷ 2 ∷ 4 ∷ 10 ∷ 5 ∷ 1 ∷ 4 ∷ 13
    ∷ 15 ∷ 4 ∷ 4 ∷ 7 ∷ 7 ∷ 0 ∷ 7 ∷ 13 ∷ 13 ∷ 3 ∷ 1 ∷ 0 ∷ 11 ∷ 4 ∷ 0 ∷ 11 ∷ 0 ∷ 4 ∷ 4 ∷ 0 ∷ 15 ∷ 14
    ∷ 7 ∷ 15 ∷ 12 ∷ 3 ∷ 2 ∷ 10 ∷ 0 ∷ 3 ∷ 9 ∷ 10 ∷ 10 ∷ 5 ∷ 8 ∷ 13 ∷ 0 ∷ 9 ∷ 7 ∷ 12 ∷ 8 ∷ 5 ∷ 2 ∷ 3
    ∷ 13 ∷ 4 ∷ 1 ∷ 12 ∷ 1 ∷ 3 ∷ 3 ∷ 3 ∷ 4 ∷ 0 ∷ 3 ∷ 4 ∷ 1 ∷ 0 ∷ 4 ∷ 10 ∷ 0 ∷ 2 ∷ 0 ∷ 0 ∷ 9 ∷ 0 ∷ 12
    ∷ 4 ∷ 7 ∷ 0 ∷ 6 ∷ 1 ∷ 7 ∷ 0 ∷ 2 ∷ 8 ∷ 8 ∷ 2 ∷ 6 ∷ 11 ∷ 9 ∷ 4 ∷ 15 ∷ 12 ∷ 12 ∷ 4 ∷ 6 ∷ 11 ∷ 14
    ∷ 14 ∷ 1 ∷ 9 ∷ 3 ∷ 7 ∷ 0 ∷ 2 ∷ 12 ∷ 7 ∷ 11 ∷ 1 ∷ 7 ∷ 14 ∷ 5 ∷ 13 ∷ 6 ∷ 0 ∷ 3 ∷ 9 ∷ 5 ∷ 3 ∷ 6
    ∷ 11 ∷ 11 ∷ 2 ∷ 12 ∷ 3 ∷ 9 ∷ 15 ∷ 4 ∷ 0 ∷ 15 ∷ 7 ∷ 1 ∷ 10 ∷ 10 ∷ 1 ∷ 1 ∷ 9 ∷ 9 ∷ 7 ∷ 15 ∷ 7 ∷ 12
    ∷ 5 ∷ 5 ∷ 11 ∷ 9 ∷ 15 ∷ 1 ∷ 11 ∷ 4 ∷ 7 ∷ 6 ∷ 0 ∷ 11 ∷ 1 ∷ 12 ∷ 2 ∷ 8 ∷ 14 ∷ 0 ∷ 7 ∷ 6 ∷ 15 ∷ 7
    ∷ 10 ∷ 3 ∷ 2 ∷ 0 ∷ 10 ∷ 10 ∷ 0 ∷ 11 ∷ 1 ∷ 8 ∷ 14 ∷ 6 ∷ 14 ∷ 6 ∷ 1 ∷ 0 ∷ 13 ∷ 6 ∷ 2 ∷ 4 ∷ 10 ∷ 9
    ∷ 3 ∷ 13 ∷ 8 ∷ 10 ∷ 3 ∷ 12 ∷ 0 ∷ 1 ∷ 1 ∷ 0 ∷ 12 ∷ 9 ∷ 1 ∷ 3 ∷ 1 ∷ 0 ∷ 2 ∷ 0 ∷ 2 ∷ 13 ∷ 1 ∷ 0 ∷ 1
    ∷ 0 ∷ 6 ∷ 6 ∷ 10 ∷ 10 ∷ 1 ∷ 0 ∷ 11 ∷ 0 ∷ 0 ∷ 0 ∷ 5 ∷ 0 ∷ 7 ∷ 0 ∷ 11 ∷ 0 ∷ 0 ∷ 0 ∷ 0 ∷ 11 ∷ 4 ∷ 8
    ∷ 12 ∷ 0 ∷ 5 ∷ 5 ∷ 7 ∷ 13 ∷ 5 ∷ 0 ∷ 13 ∷ 0 ∷ 0 ∷ 3 ∷ 10 ∷ 12 ∷ 2 ∷ 0 ∷ 14 ∷ 0 ∷ 0 ∷ 7 ∷ 5 ∷ 0
    ∷ 0 ∷ 0 ∷ 15 ∷ 0 ∷ 8 ∷ 0 ∷ 2 ∷ 0 ∷ 0 ∷ 0 ∷ 8 ∷ 0 ∷ 12 ∷ 8 ∷ 1 ∷ 14 ∷ 10 ∷ 4 ∷ 11 ∷ 0 ∷ 14 ∷ 14
    ∷ 15 ∷ 0 ∷ 14 ∷ 0 ∷ 11 ∷ 0 ∷ 9 ∷ 15 ∷ 5 ∷ 15 ∷ 5 ∷ 5 ∷ 15 ∷ 0 ∷ 6 ∷ 6 ∷ 13 ∷ 1 ∷ 6 ∷ 15 ∷ 14 ∷ 0
    ∷ 5 ∷ 6 ∷ 5 ∷ 15 ∷ 5 ∷ 5 ∷ 14 ∷ 0 ∷ 14 ∷ 0 ∷ 15 ∷ 0 ∷ 6 ∷ 0 ∷ 12 ∷ 0 ∷ 3 ∷ 4 ∷ 3 ∷ 3 ∷ 4 ∷ 6 ∷ 2
    ∷ 0 ∷ 0 ∷ 0 ∷ 0 ∷ 0 ∷ 0 ∷ 0 ∷ 0 ∷ 0 ∷ 0 ∷ 0 ∷ 0 ∷ 0 ∷ 0 ∷ 0 ∷ 0 ∷ 0 ∷ 0 ∷ 0 ∷ 0 ∷ 0 ∷ 0 ∷ 0 ∷ 0
    ∷ 0 ∷ 0 ∷ 0 ∷ 0 ∷ 0 ∷ 0 ∷ 0 ∷ 0 ∷ 0 ∷ 0 ∷ 0 ∷ 0 ∷ 0 ∷ 0 ∷ 0 ∷ 0 ∷ 0 ∷ 0 ∷ 0 ∷ 0 ∷ 0 ∷ 0 ∷ 0 ∷ 0
    ∷ 0 ∷ 0 ∷ 0 ∷ 0 ∷ 0 ∷ 0 ∷ 0 ∷ 0 ∷ 0 ∷ 0 ∷ 0 ∷ 0 ∷ 0 ∷ 0 ∷ 0 ∷ 0 ∷ 0 ∷ 0 ∷ 0 ∷ 0 ∷ 0 ∷ 0 ∷ 0 ∷ 0
    ∷ 0 ∷ 0 ∷ 0 ∷ 0 ∷ 0 ∷ 0 ∷ 0 ∷ 0 ∷ 0 ∷ 0 ∷ 0 ∷ 0 ∷ 0 ∷ 0 ∷ 0 ∷ 0 ∷ 0 ∷ 0 ∷ 0 ∷ 0 ∷ 0 ∷ 0 ∷ 0 ∷ 0
    ∷ 0 ∷ 0 ∷ 0 ∷ 0 ∷ 0 ∷ 0 ∷ 0 ∷ 0 ∷ 0 ∷ 0 ∷ 0 ∷ 0 ∷ 0 ∷ 0 ∷ 0 ∷ 0 ∷ 0 ∷ 0 ∷ 0 ∷ 0 ∷ 0 ∷ 0 ∷ 0 ∷ 0
    ∷ 0 ∷ 0 ∷ 0 ∷ 0 ∷ 0 ∷ 0 ∷ 0 ∷ 0 ∷ 0 ∷ 0 ∷ 0 ∷ 0 ∷ 0 ∷ 0 ∷ 0 ∷ 0 ∷ 0 ∷ 0 ∷ 0 ∷ 0 ∷ 0 ∷ 0 ∷ 0 ∷ 0
    ∷ 0 ∷ 0 ∷ 0 ∷ 0 ∷ 0 ∷ 0 ∷ 0 ∷ 0 ∷ 0 ∷ 0 ∷ 0 ∷ 0 ∷ 0 ∷ 0 ∷ 0 ∷ 0 ∷ 0 ∷ 0 ∷ 0 ∷ 0 ∷ 0 ∷ 0 ∷ 0 ∷ 0
    ∷ 0 ∷ 0 ∷ 0 ∷ 0 ∷ 0 ∷ 0 ∷ 0 ∷ 0 ∷ 0 ∷ 0 ∷ 0 ∷ 0 ∷ 0 ∷ 0 ∷ 0 ∷ 0 ∷ 0 ∷ 0 ∷ 0 ∷ 0 ∷ 0 ∷ 0 ∷ 0 ∷ 0
    ∷ 0 ∷ 0 ∷ 0 ∷ 0 ∷ 0 ∷ 0 ∷ 0 ∷ 0 ∷ 0 ∷ 0 ∷ 0 ∷ 0 ∷ 0 ∷ 0 ∷ 0 ∷ 0 ∷ 0 ∷ 0 ∷ 0 ∷ 0 ∷ 0 ∷ 0 ∷ 0 ∷ 0
    ∷ 0 ∷ 0 ∷ 0 ∷ 0 ∷ 0 ∷ 0 ∷ 0 ∷ 0 ∷ 0 ∷ 0 ∷ 0 ∷ 0 ∷ 0 ∷ 0 ∷ 0 ∷ 0 ∷ 0 ∷ 0 ∷ 0 ∷ 0 ∷ 0 ∷ 0 ∷ 0 ∷ 0
    ∷ 0 ∷ 0 ∷ 0 ∷ 0 ∷ 0 ∷ 0 ∷ 0 ∷ 0 ∷ 0 ∷ 0 ∷ 0 ∷ 0 ∷ 0 ∷ 0 ∷ 0 ∷ 0 ∷ 0 ∷ 0 ∷ 0 ∷ 0 ∷ 0 ∷ 0 ∷ 0 ∷ 0
    ∷ 0 ∷ 0 ∷ 0 ∷ 0 ∷ 0 ∷ 0 ∷ 0 ∷ 0 ∷ 0 ∷ 0 ∷ 0 ∷ 0 ∷ 0 ∷ 0 ∷ 0 ∷ 0 ∷ 0 ∷ 0 ∷ 0 ∷ 0 ∷ 0 ∷ 0 ∷ 0 ∷ 0
    ∷ 0 ∷ 0 ∷ 0 ∷ 0 ∷ 0 ∷ 0 ∷ 0 ∷ 0 ∷ 0 ∷ 0 ∷ 0 ∷ 0 ∷ 0 ∷ 0 ∷ 0 ∷ 0 ∷ 0 ∷ 0 ∷ 0 ∷ 0 ∷ 0 ∷ 0 ∷ 0 ∷ 0
    ∷ 0 ∷ 0 ∷ 0 ∷ 0 ∷ 0 ∷ 0 ∷ 0 ∷ 0 ∷ 0 ∷ 0 ∷ 0 ∷ 0 ∷ 0 ∷ 0 ∷ 0 ∷ 0 ∷ 0 ∷ 0 ∷ 0 ∷ 0 ∷ 0 ∷ 0 ∷ 0 ∷ 0
    ∷ 0 ∷ 0 ∷ 0 ∷ 0 ∷ 0 ∷ 0 ∷ 0 ∷ 0 ∷ 0 ∷ 0 ∷ 0 ∷ 0 ∷ 0 ∷ 0 ∷ 0 ∷ 0 ∷ 0 ∷ 0 ∷ 0 ∷ 0 ∷ 0 ∷ 0 ∷ 0 ∷ 0
    ∷ 0 ∷ 0 ∷ 0 ∷ 0 ∷ 0 ∷ 0 ∷ 0 ∷ 0 ∷ 0 ∷ 0 ∷ 0 ∷ 0 ∷ 0 ∷ 0 ∷ 0 ∷ 0 ∷ 0 ∷ 0 ∷ 0 ∷ 0 ∷ 0 ∷ 0 ∷ 0 ∷ 0
    ∷ 0 ∷ 0 ∷ 0 ∷ 0 ∷ 0 ∷ 0 ∷ 0 ∷ 0 ∷ 0 ∷ 0 ∷ 0 ∷ 0 ∷ 0 ∷ 0 ∷ 0 ∷ 0 ∷ 0 ∷ 0 ∷ 0 ∷ 0 ∷ 0 ∷ 0 ∷ 0 ∷ 0
    ∷ 0 ∷ 0 ∷ 0 ∷ 0 ∷ 0 ∷ 0 ∷ 0 ∷ 0 ∷ 0 ∷ 0 ∷ 0 ∷ 0 ∷ 0 ∷ 0 ∷ 0 ∷ 0 ∷ 0 ∷ 0 ∷ 0 ∷ 0 ∷ 0 ∷ 0 ∷ 0 ∷ 0
    ∷ 0 ∷ 0 ∷ 0 ∷ 0 ∷ 0 ∷ 0 ∷ 0 ∷ 0 ∷ 0 ∷ 0 ∷ 0 ∷ 0 ∷ 0 ∷ 0 ∷ 0 ∷ 0 ∷ 0 ∷ 0 ∷ 0 ∷ 0 ∷ 0 ∷ 0 ∷ 0 ∷ 0
    ∷ 0 ∷ 0 ∷ 0 ∷ 0 ∷ 0 ∷ 0 ∷ 0 ∷ 0 ∷ 0 ∷ 0 ∷ 0 ∷ 0 ∷ 0 ∷ 0 ∷ 0 ∷ 0 ∷ 0 ∷ 0 ∷ 0 ∷ 0 ∷ 0 ∷ 0 ∷ 0 ∷ 0
    ∷ 0 ∷ 0 ∷ 0 ∷ 0 ∷ 0 ∷ 0 ∷ 0 ∷ 0 ∷ 0 ∷ 0 ∷ 0 ∷ 0 ∷ 0 ∷ 0 ∷ 0 ∷ 0 ∷ 0 ∷ 0 ∷ 0 ∷ 0 ∷ 0 ∷ 0 ∷ 0 ∷ 0
    ∷ 0 ∷ 0 ∷ 0 ∷ 0 ∷ 0 ∷ 0 ∷ 0 ∷ 0 ∷ 0 ∷ []
