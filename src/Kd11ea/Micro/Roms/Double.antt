-- ===== src/Kd11ea/Micro/Roms/Double.antt =====
-- The PROMs that decode double operand instructions, and the condition codes
-- (pdp11/kd11ea/roms/rom_images.h).
use ll.Prelude.{ℕ, List, [], ◌∷◌}

unfoldable pub e68_rom : List ℕ
e68_rom =
    15 ∷ 15 ∷ 8 ∷ 15 ∷ 14 ∷ 15 ∷ 15 ∷ 15 ∷ 15 ∷ 15 ∷ 10 ∷ 15 ∷ 14 ∷ 15 ∷ 15 ∷ 15 ∷ 15 ∷ 15 ∷ 9 ∷ 15
    ∷ 14 ∷ 15 ∷ 15 ∷ 15 ∷ 0 ∷ 15 ∷ 11 ∷ 15 ∷ 14 ∷ 15 ∷ 15 ∷ 15 ∷ 15 ∷ 15 ∷ 15 ∷ 15 ∷ 15 ∷ 15 ∷ 15
    ∷ 15 ∷ 15 ∷ 15 ∷ 15 ∷ 15 ∷ 15 ∷ 15 ∷ 15 ∷ 15 ∷ 15 ∷ 15 ∷ 15 ∷ 15 ∷ 15 ∷ 15 ∷ 15 ∷ 15 ∷ 15 ∷ 15
    ∷ 15 ∷ 15 ∷ 15 ∷ 15 ∷ 15 ∷ 15 ∷ 15 ∷ 7 ∷ 0 ∷ 7 ∷ 6 ∷ 7 ∷ 7 ∷ 7 ∷ 15 ∷ 7 ∷ 2 ∷ 7 ∷ 6 ∷ 7 ∷ 7 ∷ 7
    ∷ 15 ∷ 7 ∷ 1 ∷ 7 ∷ 6 ∷ 7 ∷ 7 ∷ 7 ∷ 15 ∷ 7 ∷ 3 ∷ 7 ∷ 6 ∷ 7 ∷ 7 ∷ 7 ∷ 7 ∷ 7 ∷ 7 ∷ 7 ∷ 7 ∷ 7 ∷ 7
    ∷ 7 ∷ 7 ∷ 7 ∷ 7 ∷ 7 ∷ 7 ∷ 7 ∷ 7 ∷ 7 ∷ 7 ∷ 7 ∷ 7 ∷ 7 ∷ 7 ∷ 7 ∷ 7 ∷ 7 ∷ 7 ∷ 7 ∷ 7 ∷ 7 ∷ 7 ∷ 7 ∷ 7
    ∷ 7 ∷ 12 ∷ 15 ∷ 12 ∷ 15 ∷ 12 ∷ 15 ∷ 12 ∷ 15 ∷ 12 ∷ 15 ∷ 12 ∷ 15 ∷ 12 ∷ 15 ∷ 12 ∷ 15 ∷ 12 ∷ 15
    ∷ 12 ∷ 15 ∷ 12 ∷ 15 ∷ 12 ∷ 15 ∷ 12 ∷ 15 ∷ 12 ∷ 15 ∷ 12 ∷ 15 ∷ 12 ∷ 15 ∷ 13 ∷ 15 ∷ 13 ∷ 15 ∷ 13
    ∷ 15 ∷ 13 ∷ 15 ∷ 13 ∷ 15 ∷ 13 ∷ 15 ∷ 13 ∷ 15 ∷ 13 ∷ 15 ∷ 13 ∷ 15 ∷ 13 ∷ 15 ∷ 13 ∷ 15 ∷ 13 ∷ 15
    ∷ 13 ∷ 15 ∷ 13 ∷ 15 ∷ 13 ∷ 15 ∷ 13 ∷ 15 ∷ 4 ∷ 7 ∷ 4 ∷ 7 ∷ 4 ∷ 7 ∷ 4 ∷ 7 ∷ 4 ∷ 7 ∷ 4 ∷ 7 ∷ 4 ∷ 7
    ∷ 4 ∷ 7 ∷ 4 ∷ 7 ∷ 4 ∷ 7 ∷ 4 ∷ 7 ∷ 4 ∷ 7 ∷ 4 ∷ 7 ∷ 4 ∷ 7 ∷ 4 ∷ 7 ∷ 4 ∷ 7 ∷ 12 ∷ 15 ∷ 12 ∷ 15 ∷ 12
    ∷ 15 ∷ 12 ∷ 15 ∷ 12 ∷ 15 ∷ 12 ∷ 15 ∷ 12 ∷ 15 ∷ 12 ∷ 15 ∷ 12 ∷ 15 ∷ 12 ∷ 15 ∷ 12 ∷ 15 ∷ 12 ∷ 15
    ∷ 12 ∷ 15 ∷ 12 ∷ 15 ∷ 12 ∷ 15 ∷ 12 ∷ 15 ∷ 15 ∷ 15 ∷ 12 ∷ 15 ∷ 15 ∷ 15 ∷ 15 ∷ 15 ∷ 15 ∷ 15 ∷ 12
    ∷ 15 ∷ 15 ∷ 15 ∷ 15 ∷ 15 ∷ 15 ∷ 15 ∷ 13 ∷ 15 ∷ 15 ∷ 15 ∷ 15 ∷ 15 ∷ 15 ∷ 15 ∷ 8 ∷ 15 ∷ 15 ∷ 15
    ∷ 15 ∷ 15 ∷ 15 ∷ 15 ∷ 15 ∷ 15 ∷ 15 ∷ 15 ∷ 15 ∷ 15 ∷ 15 ∷ 15 ∷ 15 ∷ 15 ∷ 15 ∷ 15 ∷ 15 ∷ 15 ∷ 15
    ∷ 15 ∷ 15 ∷ 15 ∷ 15 ∷ 15 ∷ 15 ∷ 15 ∷ 15 ∷ 15 ∷ 15 ∷ 15 ∷ 15 ∷ 15 ∷ 15 ∷ 15 ∷ 15 ∷ 7 ∷ 4 ∷ 7 ∷ 7
    ∷ 7 ∷ 7 ∷ 7 ∷ 15 ∷ 7 ∷ 4 ∷ 7 ∷ 15 ∷ 7 ∷ 7 ∷ 7 ∷ 15 ∷ 7 ∷ 5 ∷ 7 ∷ 15 ∷ 7 ∷ 7 ∷ 7 ∷ 15 ∷ 7 ∷ 0 ∷ 7
    ∷ 7 ∷ 7 ∷ 7 ∷ 7 ∷ 7 ∷ 7 ∷ 7 ∷ 7 ∷ 7 ∷ 7 ∷ 7 ∷ 7 ∷ 7 ∷ 7 ∷ 7 ∷ 7 ∷ 7 ∷ 7 ∷ 7 ∷ 7 ∷ 7 ∷ 7 ∷ 7 ∷ 7
    ∷ 7 ∷ 7 ∷ 7 ∷ 7 ∷ 7 ∷ 7 ∷ 7 ∷ 7 ∷ 7 ∷ 7 ∷ 7 ∷ 7 ∷ 12 ∷ 15 ∷ 12 ∷ 15 ∷ 12 ∷ 15 ∷ 12 ∷ 15 ∷ 12
    ∷ 15 ∷ 12 ∷ 15 ∷ 12 ∷ 15 ∷ 12 ∷ 15 ∷ 12 ∷ 15 ∷ 12 ∷ 15 ∷ 12 ∷ 15 ∷ 12 ∷ 15 ∷ 12 ∷ 15 ∷ 12 ∷ 15
    ∷ 12 ∷ 15 ∷ 12 ∷ 15 ∷ 13 ∷ 15 ∷ 13 ∷ 15 ∷ 13 ∷ 15 ∷ 13 ∷ 15 ∷ 13 ∷ 15 ∷ 13 ∷ 15 ∷ 13 ∷ 15 ∷ 13
    ∷ 15 ∷ 13 ∷ 15 ∷ 13 ∷ 15 ∷ 13 ∷ 15 ∷ 13 ∷ 15 ∷ 13 ∷ 15 ∷ 13 ∷ 15 ∷ 13 ∷ 15 ∷ 13 ∷ 15 ∷ 4 ∷ 7 ∷ 4
    ∷ 7 ∷ 4 ∷ 7 ∷ 4 ∷ 7 ∷ 4 ∷ 7 ∷ 4 ∷ 7 ∷ 4 ∷ 7 ∷ 4 ∷ 7 ∷ 4 ∷ 7 ∷ 4 ∷ 7 ∷ 4 ∷ 7 ∷ 4 ∷ 7 ∷ 4 ∷ 7 ∷ 4
    ∷ 7 ∷ 4 ∷ 7 ∷ 4 ∷ 7 ∷ 12 ∷ 15 ∷ 12 ∷ 15 ∷ 12 ∷ 15 ∷ 12 ∷ 15 ∷ 12 ∷ 15 ∷ 12 ∷ 15 ∷ 12 ∷ 15 ∷ 12
    ∷ 15 ∷ 12 ∷ 15 ∷ 12 ∷ 15 ∷ 12 ∷ 15 ∷ 12 ∷ 15 ∷ 12 ∷ 15 ∷ 12 ∷ 15 ∷ 12 ∷ 15 ∷ 12 ∷ 15 ∷ []

unfoldable pub e69_rom : List ℕ
e69_rom =
    15 ∷ 9 ∷ 15 ∷ 9 ∷ 15 ∷ 9 ∷ 15 ∷ 9 ∷ 15 ∷ 13 ∷ 15 ∷ 13 ∷ 15 ∷ 13 ∷ 15 ∷ 13 ∷ 15 ∷ 13 ∷ 15 ∷ 13
    ∷ 15 ∷ 13 ∷ 15 ∷ 13 ∷ 15 ∷ 8 ∷ 15 ∷ 8 ∷ 15 ∷ 8 ∷ 15 ∷ 8 ∷ 3 ∷ 3 ∷ 3 ∷ 3 ∷ 3 ∷ 3 ∷ 3 ∷ 3 ∷ 15
    ∷ 15 ∷ 15 ∷ 15 ∷ 15 ∷ 15 ∷ 15 ∷ 15 ∷ 15 ∷ 15 ∷ 15 ∷ 15 ∷ 15 ∷ 15 ∷ 15 ∷ 15 ∷ 10 ∷ 10 ∷ 10 ∷ 10
    ∷ 10 ∷ 10 ∷ 14 ∷ 14 ∷ 15 ∷ 9 ∷ 15 ∷ 9 ∷ 15 ∷ 9 ∷ 15 ∷ 9 ∷ 15 ∷ 13 ∷ 15 ∷ 13 ∷ 15 ∷ 13 ∷ 15 ∷ 13
    ∷ 15 ∷ 13 ∷ 15 ∷ 13 ∷ 15 ∷ 13 ∷ 15 ∷ 13 ∷ 15 ∷ 8 ∷ 15 ∷ 8 ∷ 15 ∷ 8 ∷ 15 ∷ 8 ∷ 3 ∷ 3 ∷ 3 ∷ 3 ∷ 3
    ∷ 3 ∷ 3 ∷ 3 ∷ 15 ∷ 15 ∷ 15 ∷ 15 ∷ 15 ∷ 15 ∷ 15 ∷ 15 ∷ 15 ∷ 15 ∷ 15 ∷ 15 ∷ 15 ∷ 15 ∷ 15 ∷ 15 ∷ 10
    ∷ 10 ∷ 10 ∷ 10 ∷ 10 ∷ 10 ∷ 14 ∷ 14 ∷ 7 ∷ 7 ∷ 7 ∷ 7 ∷ 7 ∷ 7 ∷ 7 ∷ 7 ∷ 15 ∷ 15 ∷ 15 ∷ 15 ∷ 15 ∷ 15
    ∷ 15 ∷ 15 ∷ 15 ∷ 15 ∷ 15 ∷ 15 ∷ 15 ∷ 15 ∷ 15 ∷ 15 ∷ 10 ∷ 10 ∷ 10 ∷ 10 ∷ 10 ∷ 10 ∷ 2 ∷ 2 ∷ 3 ∷ 3
    ∷ 3 ∷ 3 ∷ 3 ∷ 3 ∷ 3 ∷ 3 ∷ 15 ∷ 15 ∷ 15 ∷ 15 ∷ 15 ∷ 15 ∷ 15 ∷ 15 ∷ 15 ∷ 15 ∷ 15 ∷ 15 ∷ 15 ∷ 15
    ∷ 15 ∷ 15 ∷ 10 ∷ 15 ∷ 10 ∷ 15 ∷ 10 ∷ 15 ∷ 14 ∷ 15 ∷ 7 ∷ 7 ∷ 7 ∷ 7 ∷ 7 ∷ 7 ∷ 7 ∷ 7 ∷ 15 ∷ 15 ∷ 15
    ∷ 15 ∷ 15 ∷ 15 ∷ 15 ∷ 15 ∷ 15 ∷ 15 ∷ 15 ∷ 15 ∷ 15 ∷ 15 ∷ 15 ∷ 15 ∷ 10 ∷ 10 ∷ 10 ∷ 10 ∷ 10 ∷ 10
    ∷ 2 ∷ 2 ∷ 15 ∷ 15 ∷ 15 ∷ 15 ∷ 15 ∷ 15 ∷ 15 ∷ 15 ∷ 15 ∷ 15 ∷ 15 ∷ 15 ∷ 15 ∷ 15 ∷ 15 ∷ 15 ∷ 15
    ∷ 15 ∷ 15 ∷ 15 ∷ 15 ∷ 15 ∷ 15 ∷ 15 ∷ 10 ∷ 15 ∷ 10 ∷ 15 ∷ 10 ∷ 15 ∷ 14 ∷ 15 ∷ []

unfoldable pub e70_rom : List ℕ
e70_rom =
    15 ∷ 15 ∷ 15 ∷ 15 ∷ 15 ∷ 15 ∷ 15 ∷ 15 ∷ 15 ∷ 15 ∷ 15 ∷ 15 ∷ 15 ∷ 15 ∷ 15 ∷ 15 ∷ 15 ∷ 15 ∷ 15
    ∷ 15 ∷ 15 ∷ 15 ∷ 15 ∷ 15 ∷ 15 ∷ 11 ∷ 15 ∷ 11 ∷ 15 ∷ 11 ∷ 15 ∷ 7 ∷ 15 ∷ 15 ∷ 15 ∷ 15 ∷ 15 ∷ 15
    ∷ 15 ∷ 15 ∷ 15 ∷ 15 ∷ 15 ∷ 15 ∷ 15 ∷ 15 ∷ 15 ∷ 15 ∷ 15 ∷ 15 ∷ 15 ∷ 15 ∷ 15 ∷ 15 ∷ 15 ∷ 15 ∷ 11
    ∷ 11 ∷ 11 ∷ 11 ∷ 11 ∷ 11 ∷ 9 ∷ 9 ∷ 15 ∷ 15 ∷ 15 ∷ 15 ∷ 15 ∷ 15 ∷ 15 ∷ 15 ∷ 15 ∷ 15 ∷ 15 ∷ 15
    ∷ 15 ∷ 15 ∷ 15 ∷ 15 ∷ 15 ∷ 15 ∷ 15 ∷ 15 ∷ 15 ∷ 15 ∷ 15 ∷ 15 ∷ 15 ∷ 11 ∷ 15 ∷ 11 ∷ 15 ∷ 11 ∷ 15
    ∷ 7 ∷ 15 ∷ 15 ∷ 15 ∷ 15 ∷ 15 ∷ 15 ∷ 15 ∷ 15 ∷ 15 ∷ 15 ∷ 15 ∷ 15 ∷ 15 ∷ 15 ∷ 15 ∷ 15 ∷ 15 ∷ 15
    ∷ 15 ∷ 15 ∷ 15 ∷ 15 ∷ 15 ∷ 15 ∷ 11 ∷ 11 ∷ 11 ∷ 11 ∷ 11 ∷ 11 ∷ 9 ∷ 9 ∷ 15 ∷ 15 ∷ 15 ∷ 15 ∷ 15
    ∷ 15 ∷ 15 ∷ 15 ∷ 15 ∷ 15 ∷ 15 ∷ 15 ∷ 15 ∷ 15 ∷ 15 ∷ 15 ∷ 15 ∷ 15 ∷ 15 ∷ 15 ∷ 15 ∷ 15 ∷ 15 ∷ 15
    ∷ 11 ∷ 11 ∷ 11 ∷ 11 ∷ 11 ∷ 11 ∷ 5 ∷ 5 ∷ 15 ∷ 15 ∷ 15 ∷ 15 ∷ 15 ∷ 15 ∷ 15 ∷ 15 ∷ 15 ∷ 15 ∷ 15
    ∷ 15 ∷ 15 ∷ 15 ∷ 15 ∷ 15 ∷ 15 ∷ 15 ∷ 15 ∷ 15 ∷ 15 ∷ 15 ∷ 15 ∷ 15 ∷ 11 ∷ 15 ∷ 11 ∷ 15 ∷ 11 ∷ 15
    ∷ 9 ∷ 15 ∷ 15 ∷ 15 ∷ 15 ∷ 15 ∷ 15 ∷ 15 ∷ 15 ∷ 15 ∷ 15 ∷ 15 ∷ 15 ∷ 15 ∷ 15 ∷ 15 ∷ 15 ∷ 15 ∷ 15
    ∷ 15 ∷ 15 ∷ 15 ∷ 15 ∷ 15 ∷ 15 ∷ 15 ∷ 11 ∷ 11 ∷ 11 ∷ 11 ∷ 11 ∷ 11 ∷ 5 ∷ 5 ∷ 15 ∷ 15 ∷ 15 ∷ 15
    ∷ 15 ∷ 15 ∷ 15 ∷ 15 ∷ 15 ∷ 15 ∷ 15 ∷ 15 ∷ 15 ∷ 15 ∷ 15 ∷ 15 ∷ 15 ∷ 15 ∷ 15 ∷ 15 ∷ 15 ∷ 15 ∷ 15
    ∷ 15 ∷ 11 ∷ 15 ∷ 11 ∷ 15 ∷ 11 ∷ 15 ∷ 5 ∷ 15 ∷ 15 ∷ 15 ∷ 15 ∷ 15 ∷ 15 ∷ 15 ∷ 15 ∷ 15 ∷ 15 ∷ 15
    ∷ 15 ∷ 15 ∷ 15 ∷ 15 ∷ 15 ∷ 15 ∷ 15 ∷ 15 ∷ 15 ∷ 15 ∷ 15 ∷ 15 ∷ 15 ∷ 15 ∷ 15 ∷ 11 ∷ 15 ∷ 11 ∷ 15
    ∷ 11 ∷ 15 ∷ 7 ∷ 15 ∷ 15 ∷ 15 ∷ 15 ∷ 15 ∷ 15 ∷ 15 ∷ 15 ∷ 15 ∷ 15 ∷ 15 ∷ 15 ∷ 15 ∷ 15 ∷ 15 ∷ 15
    ∷ 15 ∷ 15 ∷ 15 ∷ 15 ∷ 15 ∷ 15 ∷ 15 ∷ 15 ∷ 11 ∷ 11 ∷ 11 ∷ 11 ∷ 11 ∷ 11 ∷ 9 ∷ 9 ∷ 15 ∷ 15 ∷ 15
    ∷ 15 ∷ 15 ∷ 15 ∷ 15 ∷ 15 ∷ 15 ∷ 15 ∷ 15 ∷ 15 ∷ 15 ∷ 15 ∷ 15 ∷ 15 ∷ 15 ∷ 15 ∷ 15 ∷ 15 ∷ 15 ∷ 15
    ∷ 15 ∷ 15 ∷ 15 ∷ 11 ∷ 15 ∷ 11 ∷ 15 ∷ 11 ∷ 15 ∷ 7 ∷ 15 ∷ 15 ∷ 15 ∷ 15 ∷ 15 ∷ 15 ∷ 15 ∷ 15 ∷ 15
    ∷ 15 ∷ 15 ∷ 15 ∷ 15 ∷ 15 ∷ 15 ∷ 15 ∷ 15 ∷ 15 ∷ 15 ∷ 15 ∷ 15 ∷ 15 ∷ 15 ∷ 15 ∷ 11 ∷ 11 ∷ 11 ∷ 11
    ∷ 11 ∷ 11 ∷ 9 ∷ 9 ∷ 15 ∷ 15 ∷ 15 ∷ 15 ∷ 15 ∷ 15 ∷ 15 ∷ 15 ∷ 15 ∷ 15 ∷ 15 ∷ 15 ∷ 15 ∷ 15 ∷ 15
    ∷ 15 ∷ 15 ∷ 15 ∷ 15 ∷ 15 ∷ 15 ∷ 15 ∷ 15 ∷ 15 ∷ 11 ∷ 11 ∷ 11 ∷ 11 ∷ 11 ∷ 11 ∷ 5 ∷ 5 ∷ 15 ∷ 15
    ∷ 15 ∷ 15 ∷ 15 ∷ 15 ∷ 15 ∷ 15 ∷ 15 ∷ 15 ∷ 15 ∷ 15 ∷ 15 ∷ 15 ∷ 15 ∷ 15 ∷ 15 ∷ 15 ∷ 15 ∷ 15 ∷ 15
    ∷ 15 ∷ 15 ∷ 15 ∷ 11 ∷ 15 ∷ 11 ∷ 15 ∷ 11 ∷ 15 ∷ 9 ∷ 15 ∷ 15 ∷ 15 ∷ 15 ∷ 15 ∷ 15 ∷ 15 ∷ 15 ∷ 15
    ∷ 15 ∷ 15 ∷ 15 ∷ 15 ∷ 15 ∷ 15 ∷ 15 ∷ 15 ∷ 15 ∷ 15 ∷ 15 ∷ 15 ∷ 15 ∷ 15 ∷ 15 ∷ 15 ∷ 11 ∷ 11 ∷ 11
    ∷ 11 ∷ 11 ∷ 11 ∷ 5 ∷ 5 ∷ 15 ∷ 15 ∷ 15 ∷ 15 ∷ 15 ∷ 15 ∷ 15 ∷ 15 ∷ 15 ∷ 15 ∷ 15 ∷ 15 ∷ 15 ∷ 15
    ∷ 15 ∷ 15 ∷ 15 ∷ 15 ∷ 15 ∷ 15 ∷ 15 ∷ 15 ∷ 15 ∷ 15 ∷ 11 ∷ 14 ∷ 11 ∷ 14 ∷ 11 ∷ 14 ∷ 5 ∷ 14 ∷ []
