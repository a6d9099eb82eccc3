-- ===== src/Kd11ea/Micro/Roms/Single.antt =====
-- The PROMs that decode single operand and operate instructions, and reset and trace
-- (pdp11/kd11ea/roms/rom_images.h).
use ll.Prelude.{ℕ, List, [], ◌∷◌}

unfoldable pub e54_rom : List ℕ
e54_rom =
    4 ∷ 4 ∷ 4 ∷ 4 ∷ 4 ∷ 4 ∷ 4 ∷ 4 ∷ 4 ∷ 4 ∷ 4 ∷ 4 ∷ 6 ∷ 4 ∷ 4 ∷ 4 ∷ 4 ∷ 4 ∷ 4 ∷ 4 ∷ 4 ∷ 4 ∷ 4 ∷ 4
    ∷ 4 ∷ 4 ∷ 4 ∷ 4 ∷ 2 ∷ 4 ∷ 4 ∷ 4 ∷ 4 ∷ 4 ∷ 4 ∷ 4 ∷ 4 ∷ 4 ∷ 4 ∷ 4 ∷ 4 ∷ 4 ∷ 4 ∷ 4 ∷ 4 ∷ 4 ∷ 4 ∷ 4
    ∷ 4 ∷ 4 ∷ 4 ∷ 4 ∷ 4 ∷ 4 ∷ 4 ∷ 4 ∷ 4 ∷ 4 ∷ 4 ∷ 4 ∷ 4 ∷ 4 ∷ 4 ∷ 4 ∷ 4 ∷ 4 ∷ 4 ∷ 4 ∷ 4 ∷ 4 ∷ 4 ∷ 4
    ∷ 4 ∷ 4 ∷ 4 ∷ 4 ∷ 4 ∷ 4 ∷ 4 ∷ 4 ∷ 4 ∷ 4 ∷ 4 ∷ 4 ∷ 4 ∷ 12 ∷ 4 ∷ 4 ∷ 4 ∷ 4 ∷ 4 ∷ 4 ∷ 0 ∷ 4 ∷ 4 ∷ 4
    ∷ 4 ∷ 4 ∷ 4 ∷ 4 ∷ 4 ∷ 4 ∷ 4 ∷ 4 ∷ 4 ∷ 4 ∷ 4 ∷ 4 ∷ 4 ∷ 4 ∷ 4 ∷ 4 ∷ 4 ∷ 4 ∷ 4 ∷ 4 ∷ 4 ∷ 4 ∷ 4 ∷ 4
    ∷ 4 ∷ 4 ∷ 4 ∷ 4 ∷ 4 ∷ 4 ∷ 4 ∷ 4 ∷ 4 ∷ 4 ∷ 4 ∷ 4 ∷ 4 ∷ 4 ∷ 4 ∷ 4 ∷ 4 ∷ 4 ∷ 4 ∷ 4 ∷ 4 ∷ 4 ∷ 4 ∷ 4
    ∷ 4 ∷ 4 ∷ 4 ∷ 4 ∷ 4 ∷ 4 ∷ 4 ∷ 4 ∷ 4 ∷ 4 ∷ 4 ∷ 4 ∷ 4 ∷ 4 ∷ 4 ∷ 4 ∷ 4 ∷ 4 ∷ 4 ∷ 4 ∷ 4 ∷ 4 ∷ 4 ∷ 4
    ∷ 4 ∷ 4 ∷ 4 ∷ 4 ∷ 4 ∷ 4 ∷ 4 ∷ 4 ∷ 4 ∷ 4 ∷ 4 ∷ 4 ∷ 4 ∷ 4 ∷ 4 ∷ 4 ∷ 4 ∷ 4 ∷ 4 ∷ 4 ∷ 4 ∷ 4 ∷ 4 ∷ 4
    ∷ 4 ∷ 4 ∷ 4 ∷ 4 ∷ 4 ∷ 4 ∷ 4 ∷ 4 ∷ 4 ∷ 4 ∷ 4 ∷ 4 ∷ 4 ∷ 4 ∷ 4 ∷ 4 ∷ 4 ∷ 4 ∷ 4 ∷ 4 ∷ 4 ∷ 4 ∷ 4 ∷ 4
    ∷ 4 ∷ 4 ∷ 4 ∷ 4 ∷ 4 ∷ 4 ∷ 4 ∷ 4 ∷ 4 ∷ 4 ∷ 4 ∷ 4 ∷ 4 ∷ 4 ∷ 4 ∷ 4 ∷ 4 ∷ 4 ∷ 4 ∷ 4 ∷ 4 ∷ 4 ∷ 4 ∷ 4
    ∷ 4 ∷ 4 ∷ 4 ∷ 4 ∷ 4 ∷ 4 ∷ 4 ∷ 4 ∷ 4 ∷ 4 ∷ 4 ∷ 4 ∷ 4 ∷ 4 ∷ 4 ∷ 4 ∷ []

unfoldable pub e59_rom : List ℕ
e59_rom =
    15 ∷ 15 ∷ 14 ∷ 11 ∷ 15 ∷ 15 ∷ 14 ∷ 14 ∷ 15 ∷ 15 ∷ 15 ∷ 15 ∷ 15 ∷ 15 ∷ 15 ∷ 15 ∷ 15 ∷ 15 ∷ 15
    ∷ 15 ∷ 15 ∷ 15 ∷ 15 ∷ 15 ∷ 15 ∷ 15 ∷ 15 ∷ 15 ∷ 15 ∷ 15 ∷ 15 ∷ 15 ∷ 15 ∷ 15 ∷ 15 ∷ 15 ∷ 15 ∷ 15
    ∷ 15 ∷ 15 ∷ 15 ∷ 15 ∷ 15 ∷ 15 ∷ 15 ∷ 15 ∷ 15 ∷ 15 ∷ 15 ∷ 15 ∷ 15 ∷ 15 ∷ 15 ∷ 15 ∷ 15 ∷ 15 ∷ 15
    ∷ 15 ∷ 15 ∷ 15 ∷ 15 ∷ 15 ∷ 15 ∷ 15 ∷ 14 ∷ 11 ∷ 14 ∷ 11 ∷ 14 ∷ 11 ∷ 14 ∷ 11 ∷ 14 ∷ 11 ∷ 14 ∷ 11
    ∷ 14 ∷ 11 ∷ 14 ∷ 11 ∷ 14 ∷ 14 ∷ 14 ∷ 14 ∷ 14 ∷ 14 ∷ 14 ∷ 14 ∷ 15 ∷ 15 ∷ 14 ∷ 14 ∷ 14 ∷ 14 ∷ 14
    ∷ 14 ∷ 14 ∷ 14 ∷ 14 ∷ 14 ∷ 14 ∷ 14 ∷ 14 ∷ 14 ∷ 15 ∷ 15 ∷ 14 ∷ 14 ∷ 15 ∷ 15 ∷ 14 ∷ 14 ∷ 13 ∷ 13
    ∷ 13 ∷ 13 ∷ 13 ∷ 13 ∷ 13 ∷ 13 ∷ 13 ∷ 13 ∷ 13 ∷ 13 ∷ 13 ∷ 13 ∷ 13 ∷ 13 ∷ 15 ∷ 15 ∷ 15 ∷ 15 ∷ 15
    ∷ 15 ∷ 15 ∷ 15 ∷ 15 ∷ 15 ∷ 15 ∷ 15 ∷ 15 ∷ 15 ∷ 15 ∷ 15 ∷ 15 ∷ 15 ∷ 15 ∷ 15 ∷ 15 ∷ 15 ∷ 15 ∷ 15
    ∷ 15 ∷ 15 ∷ 15 ∷ 15 ∷ 15 ∷ 15 ∷ 15 ∷ 15 ∷ 15 ∷ 15 ∷ 15 ∷ 15 ∷ 15 ∷ 15 ∷ 15 ∷ 15 ∷ 15 ∷ 15 ∷ 15
    ∷ 15 ∷ 15 ∷ 15 ∷ 15 ∷ 15 ∷ 15 ∷ 15 ∷ 15 ∷ 15 ∷ 15 ∷ 15 ∷ 15 ∷ 15 ∷ 15 ∷ 15 ∷ 15 ∷ 15 ∷ 15 ∷ 15
    ∷ 15 ∷ 15 ∷ 5 ∷ 5 ∷ 5 ∷ 5 ∷ 5 ∷ 5 ∷ 5 ∷ 5 ∷ 3 ∷ 3 ∷ 3 ∷ 3 ∷ 3 ∷ 3 ∷ 3 ∷ 3 ∷ 14 ∷ 14 ∷ 14 ∷ 14
    ∷ 14 ∷ 14 ∷ 14 ∷ 14 ∷ 15 ∷ 15 ∷ 14 ∷ 14 ∷ 14 ∷ 14 ∷ 14 ∷ 14 ∷ 14 ∷ 14 ∷ 14 ∷ 14 ∷ 14 ∷ 14 ∷ 14
    ∷ 14 ∷ 14 ∷ 14 ∷ 14 ∷ 14 ∷ 15 ∷ 15 ∷ 14 ∷ 14 ∷ 13 ∷ 13 ∷ 13 ∷ 13 ∷ 13 ∷ 13 ∷ 13 ∷ 13 ∷ 13 ∷ 13
    ∷ 13 ∷ 13 ∷ 13 ∷ 13 ∷ 13 ∷ 13 ∷ []

unfoldable pub e60_rom : List ℕ
e60_rom =
    15 ∷ 15 ∷ 13 ∷ 15 ∷ 15 ∷ 15 ∷ 12 ∷ 12 ∷ 15 ∷ 15 ∷ 15 ∷ 15 ∷ 15 ∷ 15 ∷ 15 ∷ 15 ∷ 15 ∷ 15 ∷ 15
    ∷ 15 ∷ 15 ∷ 15 ∷ 15 ∷ 15 ∷ 15 ∷ 15 ∷ 15 ∷ 15 ∷ 15 ∷ 15 ∷ 15 ∷ 15 ∷ 15 ∷ 15 ∷ 15 ∷ 15 ∷ 15 ∷ 15
    ∷ 15 ∷ 15 ∷ 15 ∷ 15 ∷ 15 ∷ 15 ∷ 15 ∷ 15 ∷ 15 ∷ 15 ∷ 15 ∷ 15 ∷ 15 ∷ 15 ∷ 15 ∷ 15 ∷ 15 ∷ 15 ∷ 15
    ∷ 15 ∷ 15 ∷ 15 ∷ 15 ∷ 15 ∷ 15 ∷ 15 ∷ 2 ∷ 15 ∷ 2 ∷ 15 ∷ 2 ∷ 15 ∷ 2 ∷ 15 ∷ 2 ∷ 15 ∷ 2 ∷ 15 ∷ 2
    ∷ 15 ∷ 2 ∷ 15 ∷ 11 ∷ 11 ∷ 11 ∷ 11 ∷ 11 ∷ 11 ∷ 11 ∷ 11 ∷ 2 ∷ 2 ∷ 11 ∷ 11 ∷ 11 ∷ 11 ∷ 1 ∷ 1 ∷ 0
    ∷ 0 ∷ 0 ∷ 0 ∷ 0 ∷ 0 ∷ 0 ∷ 0 ∷ 13 ∷ 13 ∷ 7 ∷ 7 ∷ 14 ∷ 14 ∷ 11 ∷ 11 ∷ 15 ∷ 15 ∷ 15 ∷ 15 ∷ 15 ∷ 15
    ∷ 15 ∷ 15 ∷ 15 ∷ 15 ∷ 15 ∷ 15 ∷ 15 ∷ 15 ∷ 15 ∷ 15 ∷ 15 ∷ 15 ∷ 15 ∷ 15 ∷ 15 ∷ 15 ∷ 15 ∷ 15 ∷ 15
    ∷ 15 ∷ 15 ∷ 15 ∷ 15 ∷ 15 ∷ 15 ∷ 15 ∷ 15 ∷ 15 ∷ 15 ∷ 15 ∷ 15 ∷ 15 ∷ 15 ∷ 15 ∷ 15 ∷ 15 ∷ 15 ∷ 15
    ∷ 15 ∷ 15 ∷ 15 ∷ 15 ∷ 15 ∷ 15 ∷ 15 ∷ 15 ∷ 15 ∷ 15 ∷ 15 ∷ 15 ∷ 15 ∷ 15 ∷ 15 ∷ 15 ∷ 15 ∷ 15 ∷ 15
    ∷ 15 ∷ 15 ∷ 15 ∷ 15 ∷ 15 ∷ 15 ∷ 15 ∷ 15 ∷ 15 ∷ 15 ∷ 15 ∷ 15 ∷ 15 ∷ 15 ∷ 15 ∷ 15 ∷ 15 ∷ 15 ∷ 15
    ∷ 15 ∷ 15 ∷ 15 ∷ 15 ∷ 15 ∷ 15 ∷ 15 ∷ 15 ∷ 15 ∷ 15 ∷ 15 ∷ 15 ∷ 15 ∷ 15 ∷ 11 ∷ 11 ∷ 11 ∷ 11 ∷ 11
    ∷ 11 ∷ 11 ∷ 11 ∷ 2 ∷ 2 ∷ 11 ∷ 11 ∷ 11 ∷ 11 ∷ 1 ∷ 1 ∷ 0 ∷ 0 ∷ 0 ∷ 0 ∷ 0 ∷ 0 ∷ 0 ∷ 0 ∷ 5 ∷ 5 ∷ 7
    ∷ 7 ∷ 14 ∷ 14 ∷ 4 ∷ 4 ∷ 15 ∷ 15 ∷ 15 ∷ 15 ∷ 15 ∷ 15 ∷ 15 ∷ 15 ∷ 15 ∷ 15 ∷ 15 ∷ 15 ∷ 15 ∷ 15 ∷ 15
    ∷ 15 ∷ []

unfoldable pub e63_rom : List ℕ
e63_rom =
    3 ∷ 12 ∷ 15 ∷ 15 ∷ 13 ∷ 13 ∷ 9 ∷ 9 ∷ 6 ∷ 15 ∷ 15 ∷ 15 ∷ 13 ∷ 13 ∷ 9 ∷ 9 ∷ 15 ∷ 3 ∷ 15 ∷ 15 ∷ 13
    ∷ 13 ∷ 9 ∷ 9 ∷ 6 ∷ 15 ∷ 15 ∷ 15 ∷ 13 ∷ 13 ∷ 9 ∷ 9 ∷ 15 ∷ 15 ∷ 15 ∷ 15 ∷ 15 ∷ 15 ∷ 9 ∷ 9 ∷ 15
    ∷ 15 ∷ 15 ∷ 15 ∷ 15 ∷ 15 ∷ 9 ∷ 9 ∷ 15 ∷ 15 ∷ 15 ∷ 15 ∷ 15 ∷ 15 ∷ 9 ∷ 9 ∷ 15 ∷ 15 ∷ 15 ∷ 15 ∷ 15
    ∷ 15 ∷ 9 ∷ 9 ∷ 15 ∷ 15 ∷ 15 ∷ 15 ∷ 15 ∷ 15 ∷ 1 ∷ 1 ∷ 15 ∷ 15 ∷ 15 ∷ 15 ∷ 15 ∷ 15 ∷ 1 ∷ 1 ∷ 15
    ∷ 15 ∷ 15 ∷ 15 ∷ 15 ∷ 15 ∷ 1 ∷ 1 ∷ 15 ∷ 15 ∷ 15 ∷ 15 ∷ 15 ∷ 15 ∷ 1 ∷ 1 ∷ 15 ∷ 15 ∷ 15 ∷ 15 ∷ 15
    ∷ 15 ∷ 1 ∷ 1 ∷ 15 ∷ 15 ∷ 15 ∷ 15 ∷ 15 ∷ 15 ∷ 1 ∷ 1 ∷ 15 ∷ 15 ∷ 15 ∷ 15 ∷ 15 ∷ 15 ∷ 1 ∷ 1 ∷ 15
    ∷ 15 ∷ 15 ∷ 15 ∷ 15 ∷ 15 ∷ 1 ∷ 1 ∷ 15 ∷ 15 ∷ 15 ∷ 15 ∷ 15 ∷ 15 ∷ 15 ∷ 15 ∷ 15 ∷ 15 ∷ 15 ∷ 15
    ∷ 15 ∷ 15 ∷ 15 ∷ 15 ∷ 15 ∷ 15 ∷ 15 ∷ 15 ∷ 15 ∷ 15 ∷ 15 ∷ 15 ∷ 15 ∷ 15 ∷ 15 ∷ 15 ∷ 15 ∷ 15 ∷ 15
    ∷ 15 ∷ 15 ∷ 15 ∷ 15 ∷ 15 ∷ 15 ∷ 15 ∷ 15 ∷ 15 ∷ 15 ∷ 15 ∷ 15 ∷ 15 ∷ 15 ∷ 15 ∷ 15 ∷ 15 ∷ 15 ∷ 15
    ∷ 15 ∷ 15 ∷ 15 ∷ 15 ∷ 15 ∷ 15 ∷ 15 ∷ 15 ∷ 15 ∷ 15 ∷ 15 ∷ 15 ∷ 15 ∷ 15 ∷ 15 ∷ 15 ∷ 15 ∷ 15 ∷ 15
    ∷ 15 ∷ 15 ∷ 15 ∷ 15 ∷ 15 ∷ 15 ∷ 15 ∷ 15 ∷ 15 ∷ 15 ∷ 15 ∷ 15 ∷ 15 ∷ 15 ∷ 15 ∷ 15 ∷ 15 ∷ 15 ∷ 15
    ∷ 15 ∷ 15 ∷ 15 ∷ 15 ∷ 15 ∷ 15 ∷ 15 ∷ 15 ∷ 15 ∷ 15 ∷ 15 ∷ 15 ∷ 15 ∷ 15 ∷ 15 ∷ 15 ∷ 15 ∷ 15 ∷ 15
    ∷ 15 ∷ 15 ∷ 15 ∷ 15 ∷ 15 ∷ 15 ∷ 15 ∷ 15 ∷ 15 ∷ 15 ∷ 15 ∷ 15 ∷ 15 ∷ 15 ∷ 15 ∷ 15 ∷ 15 ∷ 15 ∷ 15
    ∷ 15 ∷ 15 ∷ []

unfoldable pub e74_rom : List ℕ
e74_rom =
    0xfe ∷ 0xfe ∷ 0xfe ∷ 0xfe ∷ 0xfe ∷ 0xfe ∷ 0xfe ∷ 0xfe ∷ 58 ∷ 58 ∷ 56 ∷ 56 ∷ 0xec ∷ 0xde ∷ 0xde
    ∷ 0x72 ∷ 0xfe ∷ 0xfe ∷ 0xfe ∷ 0xfe ∷ 0xfe ∷ 0xfe ∷ 0xfe ∷ 0xfe ∷ 0xfe ∷ 0xfe ∷ 0xfe ∷ 0xfe
    ∷ 0xfe ∷ 0xfe ∷ 0xfe ∷ 0xfe ∷ []
