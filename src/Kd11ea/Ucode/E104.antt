-- ===== src/Kd11ea/Ucode/E104.antt =====
-- One of the twelve PROMs of the control store, four bits of each micro-word
-- (pdp11/kd11ea/roms/rom_images.h).
use ll.Prelude.{ℕ, List, [], ◌∷◌}

unfoldable pub m8266_e104_ucode_rom : List ℕ
m8266_e104_ucode_rom =
    3 ∷ 8 ∷ 3 ∷ 8 ∷ 3 ∷ 0 ∷ 8 ∷ 0 ∷ 3 ∷ 4 ∷ 8 ∷ 0 ∷ 6 ∷ 8 ∷ 11 ∷ 11 ∷ 8 ∷ 10 ∷ 10 ∷ 10 ∷ 10 ∷ 8 ∷ 10
    ∷ 0 ∷ 3 ∷ 5 ∷ 10 ∷ 10 ∷ 0 ∷ 0 ∷ 10 ∷ 8 ∷ 3 ∷ 8 ∷ 11 ∷ 8 ∷ 3 ∷ 8 ∷ 8 ∷ 0 ∷ 3 ∷ 4 ∷ 8 ∷ 10 ∷ 0 ∷ 0
    ∷ 11 ∷ 11 ∷ 0 ∷ 3 ∷ 3 ∷ 3 ∷ 5 ∷ 10 ∷ 3 ∷ 3 ∷ 3 ∷ 3 ∷ 3 ∷ 3 ∷ 0 ∷ 0 ∷ 3 ∷ 0 ∷ 3 ∷ 8 ∷ 8 ∷ 8 ∷ 0
    ∷ 0 ∷ 8 ∷ 11 ∷ 3 ∷ 4 ∷ 8 ∷ 11 ∷ 0 ∷ 0 ∷ 11 ∷ 0 ∷ 0 ∷ 10 ∷ 10 ∷ 10 ∷ 5 ∷ 0 ∷ 10 ∷ 8 ∷ 0 ∷ 5 ∷ 10
    ∷ 10 ∷ 4 ∷ 8 ∷ 10 ∷ 3 ∷ 3 ∷ 8 ∷ 11 ∷ 8 ∷ 7 ∷ 0 ∷ 8 ∷ 8 ∷ 0 ∷ 4 ∷ 8 ∷ 8 ∷ 4 ∷ 8 ∷ 8 ∷ 0 ∷ 0 ∷ 3
    ∷ 3 ∷ 3 ∷ 4 ∷ 10 ∷ 3 ∷ 10 ∷ 0 ∷ 3 ∷ 3 ∷ 3 ∷ 3 ∷ 10 ∷ 3 ∷ 3 ∷ 0 ∷ 3 ∷ 3 ∷ 3 ∷ 0 ∷ 0 ∷ 3 ∷ 3 ∷ 3
    ∷ 8 ∷ 7 ∷ 7 ∷ 4 ∷ 10 ∷ 8 ∷ 3 ∷ 0 ∷ 3 ∷ 3 ∷ 3 ∷ 1 ∷ 3 ∷ 8 ∷ 3 ∷ 7 ∷ 0 ∷ 7 ∷ 7 ∷ 1 ∷ 0 ∷ 3 ∷ 3 ∷ 3
    ∷ 3 ∷ 7 ∷ 3 ∷ 3 ∷ 3 ∷ 10 ∷ 0 ∷ 7 ∷ 1 ∷ 0 ∷ 3 ∷ 7 ∷ 0 ∷ 3 ∷ 3 ∷ 0 ∷ 0 ∷ 3 ∷ 3 ∷ 3 ∷ 0 ∷ 8 ∷ 3 ∷ 3
    ∷ 3 ∷ 0 ∷ 3 ∷ 3 ∷ 0 ∷ 3 ∷ 3 ∷ 0 ∷ 3 ∷ 7 ∷ 7 ∷ 0 ∷ 3 ∷ 10 ∷ 3 ∷ 3 ∷ 3 ∷ 3 ∷ 3 ∷ 3 ∷ 8 ∷ 0 ∷ 0 ∷ 4
    ∷ 4 ∷ 3 ∷ 3 ∷ 1 ∷ 2 ∷ 0 ∷ 0 ∷ 3 ∷ 3 ∷ 3 ∷ 0 ∷ 1 ∷ 8 ∷ 3 ∷ 0 ∷ 7 ∷ 4 ∷ 3 ∷ 0 ∷ 3 ∷ 3 ∷ 3 ∷ 1 ∷ 3
    ∷ 3 ∷ 3 ∷ 2 ∷ 3 ∷ 8 ∷ 3 ∷ 3 ∷ 3 ∷ 3 ∷ 3 ∷ 0 ∷ 1 ∷ 3 ∷ 0 ∷ 3 ∷ 1 ∷ 7 ∷ 1 ∷ 3 ∷ 3 ∷ 3 ∷ 3 ∷ 3 ∷ 10
    ∷ 11 ∷ 8 ∷ 11 ∷ 7 ∷ 7 ∷ 5 ∷ 10 ∷ 2 ∷ 0 ∷ 8 ∷ 11 ∷ 2 ∷ 8 ∷ 11 ∷ 3 ∷ 10 ∷ 0 ∷ 10 ∷ 10 ∷ 8 ∷ 10
    ∷ 10 ∷ 8 ∷ 10 ∷ 10 ∷ 10 ∷ 10 ∷ 10 ∷ 0 ∷ 0 ∷ 0 ∷ 8 ∷ 8 ∷ 8 ∷ 8 ∷ 10 ∷ 0 ∷ 0 ∷ 0 ∷ 10 ∷ 11 ∷ 8 ∷ 8
    ∷ 8 ∷ 8 ∷ 0 ∷ 10 ∷ 3 ∷ 0 ∷ 3 ∷ 3 ∷ 0 ∷ 8 ∷ 8 ∷ 8 ∷ 3 ∷ 3 ∷ 3 ∷ 3 ∷ 3 ∷ 3 ∷ 10 ∷ 0 ∷ 8 ∷ 10 ∷ 8
    ∷ 8 ∷ 0 ∷ 1 ∷ 8 ∷ 8 ∷ 11 ∷ 11 ∷ 8 ∷ 8 ∷ 8 ∷ 0 ∷ 8 ∷ 10 ∷ 10 ∷ 8 ∷ 10 ∷ 10 ∷ 0 ∷ 10 ∷ 3 ∷ 0 ∷ 10
    ∷ 10 ∷ 10 ∷ 10 ∷ 10 ∷ 3 ∷ 10 ∷ 8 ∷ 8 ∷ 3 ∷ 8 ∷ 8 ∷ 10 ∷ 2 ∷ 10 ∷ 0 ∷ 8 ∷ 11 ∷ 8 ∷ 8 ∷ 8 ∷ 0 ∷ 8
    ∷ 8 ∷ 3 ∷ 8 ∷ 3 ∷ 3 ∷ 8 ∷ 0 ∷ 0 ∷ 0 ∷ 3 ∷ 3 ∷ 3 ∷ 3 ∷ 3 ∷ 10 ∷ 8 ∷ 8 ∷ 3 ∷ 3 ∷ 3 ∷ 0 ∷ 3 ∷ 0 ∷ 3
    ∷ 3 ∷ 0 ∷ 3 ∷ 0 ∷ 0 ∷ 3 ∷ 3 ∷ 3 ∷ 3 ∷ 1 ∷ 1 ∷ 1 ∷ 1 ∷ 0 ∷ 3 ∷ 10 ∷ 3 ∷ 3 ∷ 3 ∷ 10 ∷ 8 ∷ 0 ∷ 3
    ∷ 0 ∷ 3 ∷ 3 ∷ 3 ∷ 3 ∷ 3 ∷ 0 ∷ 0 ∷ 0 ∷ 3 ∷ 7 ∷ 8 ∷ 3 ∷ 3 ∷ 3 ∷ 3 ∷ 0 ∷ 3 ∷ 3 ∷ 3 ∷ 1 ∷ 3 ∷ 3 ∷ 3
    ∷ 0 ∷ 3 ∷ 7 ∷ 0 ∷ 0 ∷ 8 ∷ 0 ∷ 3 ∷ 0 ∷ 3 ∷ 3 ∷ 3 ∷ 7 ∷ 0 ∷ 3 ∷ 3 ∷ 0 ∷ 3 ∷ 3 ∷ 0 ∷ 7 ∷ 0 ∷ 1 ∷ 3
    ∷ 8 ∷ 3 ∷ 3 ∷ 3 ∷ 3 ∷ 10 ∷ 0 ∷ 0 ∷ 8 ∷ 3 ∷ 0 ∷ 3 ∷ 8 ∷ 0 ∷ 3 ∷ 3 ∷ 0 ∷ 3 ∷ 1 ∷ 1 ∷ 0 ∷ 10 ∷ 0
    ∷ 3 ∷ 10 ∷ 3 ∷ 3 ∷ 3 ∷ 3 ∷ 3 ∷ 0 ∷ 0 ∷ 8 ∷ 3 ∷ 3 ∷ 0 ∷ 3 ∷ 8 ∷ 0 ∷ 3 ∷ 0 ∷ 3 ∷ 1 ∷ 3 ∷ 1 ∷ 0 ∷ 3
    ∷ 3 ∷ 3 ∷ 3 ∷ 0 ∷ 0 ∷ 0 ∷ 0 ∷ 0 ∷ 0 ∷ 0 ∷ 0 ∷ 0 ∷ 0 ∷ 0 ∷ 0 ∷ 0 ∷ 0 ∷ 0 ∷ 0 ∷ 0 ∷ 0 ∷ 0 ∷ 0 ∷ 0
    ∷ 0 ∷ 0 ∷ 0 ∷ 0 ∷ 0 ∷ 0 ∷ 0 ∷ 0 ∷ 0 ∷ 0 ∷ 0 ∷ 0 ∷ 0 ∷ 0 ∷ 0 ∷ 0 ∷ 0 ∷ 0 ∷ 0 ∷ 0 ∷ 0 ∷ 0 ∷ 0 ∷ 0
    ∷ 0 ∷ 0 ∷ 0 ∷ 0 ∷ 0 ∷ 0 ∷ 0 ∷ 0 ∷ 0 ∷ 0 ∷ 0 ∷ 0 ∷ 0 ∷ 0 ∷ 0 ∷ 0 ∷ 0 ∷ 0 ∷ 0 ∷ 0 ∷ 0 ∷ 0 ∷ 0 ∷ 0
    ∷ 0 ∷ 0 ∷ 0 ∷ 0 ∷ 0 ∷ 0 ∷ 0 ∷ 0 ∷ 0 ∷ 0 ∷ 0 ∷ 0 ∷ 0 ∷ 0 ∷ 0 ∷ 0 ∷ 0 ∷ 0 ∷ 0 ∷ 0 ∷ 0 ∷ 0 ∷ 0 ∷ 0
    ∷ 0 ∷ 0 ∷ 0 ∷ 0 ∷ 0 ∷ 0 ∷ 0 ∷ 0 ∷ 0 ∷ 0 ∷ 0 ∷ 0 ∷ 0 ∷ 0 ∷ 0 ∷ 0 ∷ 0 ∷ 0 ∷ 0 ∷ 0 ∷ 0 ∷ 0 ∷ 0 ∷ 0
    ∷ 0 ∷ 0 ∷ 0 ∷ 0 ∷ 0 ∷ 0 ∷ 0 ∷ 0 ∷ 0 ∷ 0 ∷ 0 ∷ 0 ∷ 0 ∷ 0 ∷ 0 ∷ 0 ∷ 0 ∷ 0 ∷ 0 ∷ 0 ∷ 0 ∷ 0 ∷ 0 ∷ 0
    ∷ 0 ∷ 0 ∷ 0 ∷ 0 ∷ 0 ∷ 0 ∷ 0 ∷ 0 ∷ 0 ∷ 0 ∷ 0 ∷ 0 ∷ 0 ∷ 0 ∷ 0 ∷ 0 ∷ 0 ∷ 0 ∷ 0 ∷ 0 ∷ 0 ∷ 0 ∷ 0 ∷ 0
    ∷ 0 ∷ 0 ∷ 0 ∷ 0 ∷ 0 ∷ 0 ∷ 0 ∷ 0 ∷ 0 ∷ 0 ∷ 0 ∷ 0 ∷ 0 ∷ 0 ∷ 0 ∷ 0 ∷ 0 ∷ 0 ∷ 0 ∷ 0 ∷ 0 ∷ 0 ∷ 0 ∷ 0
    ∷ 0 ∷ 0 ∷ 0 ∷ 0 ∷ 0 ∷ 0 ∷ 0 ∷ 0 ∷ 0 ∷ 0 ∷ 0 ∷ 0 ∷ 0 ∷ 0 ∷ 0 ∷ 0 ∷ 0 ∷ 0 ∷ 0 ∷ 0 ∷ 0 ∷ 0 ∷ 0 ∷ 0
    ∷ 0 ∷ 0 ∷ 0 ∷ 0 ∷ 0 ∷ 0 ∷ 0 ∷ 0 ∷ 0 ∷ 0 ∷ 0 ∷ 0 ∷ 0 ∷ 0 ∷ 0 ∷ 0 ∷ 0 ∷ 0 ∷ 0 ∷ 0 ∷ 0 ∷ 0 ∷ 0 ∷ 0
    ∷ 0 ∷ 0 ∷ 0 ∷ 0 ∷ 0 ∷ 0 ∷ 0 ∷ 0 ∷ 0 ∷ 0 ∷ 0 ∷ 0 ∷ 0 ∷ 0 ∷ 0 ∷ 0 ∷ 0 ∷ 0 ∷ 0 ∷ 0 ∷ 0 ∷ 0 ∷ 0 ∷ 0
    ∷ 0 ∷ 0 ∷ 0 ∷ 0 ∷ 0 ∷ 0 ∷ 0 ∷ 0 ∷ 0 ∷ 0 ∷ 0 ∷ 0 ∷ 0 ∷ 0 ∷ 0 ∷ 0 ∷ 0 ∷ 0 ∷ 0 ∷ 0 ∷ 0 ∷ 0 ∷ 0 ∷ 0
    ∷ 0 ∷ 0 ∷ 0 ∷ 0 ∷ 0 ∷ 0 ∷ 0 ∷ 0 ∷ 0 ∷ 0 ∷ 0 ∷ 0 ∷ 0 ∷ 0 ∷ 0 ∷ 0 ∷ 0 ∷ 0 ∷ 0 ∷ 0 ∷ 0 ∷ 0 ∷ 0 ∷ 0
    ∷ 0 ∷ 0 ∷ 0 ∷ 0 ∷ 0 ∷ 0 ∷ 0 ∷ 0 ∷ 0 ∷ 0 ∷ 0 ∷ 0 ∷ 0 ∷ 0 ∷ 0 ∷ 0 ∷ 0 ∷ 0 ∷ 0 ∷ 0 ∷ 0 ∷ 0 ∷ 0 ∷ 0
    ∷ 0 ∷ 0 ∷ 0 ∷ 0 ∷ 0 ∷ 0 ∷ 0 ∷ 0 ∷ 0 ∷ 0 ∷ 0 ∷ 0 ∷ 0 ∷ 0 ∷ 0 ∷ 0 ∷ 0 ∷ 0 ∷ 0 ∷ 0 ∷ 0 ∷ 0 ∷ 0 ∷ 0
    ∷ 0 ∷ 0 ∷ 0 ∷ 0 ∷ 0 ∷ 0 ∷ 0 ∷ 0 ∷ 0 ∷ 0 ∷ 0 ∷ 0 ∷ 0 ∷ 0 ∷ 0 ∷ 0 ∷ 0 ∷ 0 ∷ 0 ∷ 0 ∷ 0 ∷ 0 ∷ 0 ∷ 0
    ∷ 0 ∷ 0 ∷ 0 ∷ 0 ∷ 0 ∷ 0 ∷ 0 ∷ 0 ∷ 0 ∷ 0 ∷ 0 ∷ 0 ∷ 0 ∷ 0 ∷ 0 ∷ 0 ∷ 0 ∷ 0 ∷ 0 ∷ 0 ∷ 0 ∷ 0 ∷ 0 ∷ 0
    ∷ 0 ∷ 0 ∷ 0 ∷ 0 ∷ 0 ∷ 0 ∷ 0 ∷ 0 ∷ 0 ∷ 0 ∷ 0 ∷ 0 ∷ 0 ∷ 0 ∷ 0 ∷ 0 ∷ 0 ∷ 0 ∷ 0 ∷ 0 ∷ 0 ∷ 0 ∷ 0 ∷ 0
    ∷ 0 ∷ 0 ∷ 0 ∷ 0 ∷ 0 ∷ 0 ∷ 0 ∷ 0 ∷ 0 ∷ 0 ∷ 0 ∷ 0 ∷ 0 ∷ 0 ∷ 0 ∷ 0 ∷ 0 ∷ 0 ∷ 0 ∷ 0 ∷ 0 ∷ 0 ∷ 0 ∷ 0
    ∷ 0 ∷ 0 ∷ 0 ∷ 0 ∷ 0 ∷ 0 ∷ 0 ∷ 0 ∷ 0 ∷ 0 ∷ 0 ∷ 0 ∷ 0 ∷ 0 ∷ 0 ∷ 0 ∷ 0 ∷ 0 ∷ 0 ∷ 0 ∷ 0 ∷ 0 ∷ 0 ∷ 0
    ∷ 0 ∷ 0 ∷ 0 ∷ 0 ∷ 0 ∷ 0 ∷ 0 ∷ 0 ∷ 0 ∷ 0 ∷ 0 ∷ 0 ∷ 0 ∷ 0 ∷ 0 ∷ 0 ∷ 0 ∷ 0 ∷ 0 ∷ 0 ∷ 0 ∷ 0 ∷ 0 ∷ 0
    ∷ 0 ∷ 0 ∷ 0 ∷ 0 ∷ 0 ∷ 0 ∷ 0 ∷ 0 ∷ 0 ∷ 0 ∷ 0 ∷ []
