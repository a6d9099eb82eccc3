-- ===== src/Kd11ea/Micro/Roms/Function.antt =====
-- The PROMs of the ALU function, the byte control and the B registers
-- (pdp11/kd11ea/roms/rom_images.h).
use ll.Prelude.{ℕ, List, [], ◌∷◌}

unfoldable pub e61_rom : List ℕ
e61_rom =
    5 ∷ 5 ∷ 5 ∷ 5 ∷ 5 ∷ 5 ∷ 5 ∷ 5 ∷ 5 ∷ 5 ∷ 5 ∷ 5 ∷ 5 ∷ 5 ∷ 5 ∷ 5 ∷ 0 ∷ 0 ∷ 1 ∷ 1 ∷ 2 ∷ 2 ∷ 3 ∷ 3
    ∷ 4 ∷ 4 ∷ 5 ∷ 5 ∷ 5 ∷ 5 ∷ 5 ∷ 5 ∷ 6 ∷ 6 ∷ 6 ∷ 6 ∷ 6 ∷ 6 ∷ 6 ∷ 6 ∷ 5 ∷ 5 ∷ 5 ∷ 5 ∷ 5 ∷ 5 ∷ 0 ∷ 5
    ∷ 5 ∷ 5 ∷ 5 ∷ 5 ∷ 5 ∷ 5 ∷ 5 ∷ 5 ∷ 5 ∷ 5 ∷ 5 ∷ 5 ∷ 5 ∷ 5 ∷ 5 ∷ 5 ∷ 5 ∷ 5 ∷ 5 ∷ 5 ∷ 5 ∷ 5 ∷ 5 ∷ 5
    ∷ 5 ∷ 5 ∷ 5 ∷ 5 ∷ 5 ∷ 5 ∷ 5 ∷ 5 ∷ 0 ∷ 0 ∷ 1 ∷ 1 ∷ 2 ∷ 2 ∷ 3 ∷ 3 ∷ 4 ∷ 4 ∷ 5 ∷ 5 ∷ 5 ∷ 5 ∷ 5 ∷ 5
    ∷ 6 ∷ 6 ∷ 6 ∷ 6 ∷ 6 ∷ 6 ∷ 6 ∷ 6 ∷ 5 ∷ 5 ∷ 5 ∷ 5 ∷ 5 ∷ 5 ∷ 7 ∷ 5 ∷ 5 ∷ 5 ∷ 5 ∷ 5 ∷ 5 ∷ 5 ∷ 5 ∷ 5
    ∷ 5 ∷ 5 ∷ 5 ∷ 5 ∷ 5 ∷ 5 ∷ 5 ∷ 5 ∷ 5 ∷ 5 ∷ 5 ∷ 5 ∷ 5 ∷ 5 ∷ 5 ∷ 5 ∷ 5 ∷ 5 ∷ 5 ∷ 5 ∷ 5 ∷ 5 ∷ 5 ∷ 5
    ∷ 0 ∷ 0 ∷ 1 ∷ 1 ∷ 2 ∷ 2 ∷ 3 ∷ 3 ∷ 4 ∷ 4 ∷ 2 ∷ 2 ∷ 3 ∷ 3 ∷ 5 ∷ 5 ∷ 6 ∷ 6 ∷ 6 ∷ 6 ∷ 6 ∷ 6 ∷ 6 ∷ 6
    ∷ 5 ∷ 5 ∷ 5 ∷ 5 ∷ 5 ∷ 5 ∷ 0 ∷ 5 ∷ 5 ∷ 5 ∷ 5 ∷ 5 ∷ 5 ∷ 5 ∷ 5 ∷ 5 ∷ 5 ∷ 5 ∷ 5 ∷ 5 ∷ 5 ∷ 5 ∷ 5 ∷ 5
    ∷ 5 ∷ 5 ∷ 5 ∷ 5 ∷ 5 ∷ 5 ∷ 5 ∷ 5 ∷ 5 ∷ 5 ∷ 5 ∷ 5 ∷ 5 ∷ 5 ∷ 5 ∷ 5 ∷ 0 ∷ 0 ∷ 1 ∷ 1 ∷ 2 ∷ 2 ∷ 3 ∷ 3
    ∷ 4 ∷ 4 ∷ 2 ∷ 2 ∷ 3 ∷ 3 ∷ 5 ∷ 5 ∷ 6 ∷ 6 ∷ 6 ∷ 6 ∷ 6 ∷ 6 ∷ 6 ∷ 6 ∷ 5 ∷ 5 ∷ 5 ∷ 5 ∷ 5 ∷ 5 ∷ 7 ∷ 5
    ∷ 5 ∷ 5 ∷ 5 ∷ 5 ∷ 5 ∷ 5 ∷ 5 ∷ 5 ∷ 5 ∷ 5 ∷ 5 ∷ 5 ∷ 5 ∷ 5 ∷ 5 ∷ 5 ∷ []

unfoldable pub e80_rom : List ℕ
e80_rom =
    2 ∷ 2 ∷ 2 ∷ 2 ∷ 2 ∷ 2 ∷ 2 ∷ 2 ∷ 2 ∷ 2 ∷ 2 ∷ 2 ∷ 2 ∷ 2 ∷ 2 ∷ 2 ∷ 2 ∷ 2 ∷ 0 ∷ 0 ∷ 2 ∷ 2 ∷ 0 ∷ 0
    ∷ 2 ∷ 2 ∷ 0 ∷ 0 ∷ 2 ∷ 2 ∷ 0 ∷ 0 ∷ 10 ∷ 10 ∷ 10 ∷ 10 ∷ 10 ∷ 10 ∷ 10 ∷ 10 ∷ 10 ∷ 10 ∷ 10 ∷ 10 ∷ 10
    ∷ 10 ∷ 10 ∷ 10 ∷ 10 ∷ 10 ∷ 8 ∷ 8 ∷ 10 ∷ 10 ∷ 8 ∷ 8 ∷ 10 ∷ 10 ∷ 8 ∷ 8 ∷ 10 ∷ 10 ∷ 8 ∷ 8 ∷ 0 ∷ 0
    ∷ 0 ∷ 0 ∷ 0 ∷ 0 ∷ 0 ∷ 0 ∷ 0 ∷ 0 ∷ 0 ∷ 0 ∷ 0 ∷ 0 ∷ 0 ∷ 0 ∷ 0 ∷ 0 ∷ 0 ∷ 0 ∷ 0 ∷ 0 ∷ 0 ∷ 0 ∷ 0 ∷ 0
    ∷ 0 ∷ 0 ∷ 0 ∷ 0 ∷ 0 ∷ 0 ∷ 0 ∷ 0 ∷ 0 ∷ 0 ∷ 0 ∷ 0 ∷ 0 ∷ 0 ∷ 0 ∷ 0 ∷ 0 ∷ 0 ∷ 0 ∷ 0 ∷ 0 ∷ 0 ∷ 0 ∷ 0
    ∷ 0 ∷ 0 ∷ 0 ∷ 0 ∷ 0 ∷ 0 ∷ 0 ∷ 0 ∷ 0 ∷ 0 ∷ 0 ∷ 0 ∷ 0 ∷ 0 ∷ 6 ∷ 6 ∷ 6 ∷ 6 ∷ 6 ∷ 6 ∷ 6 ∷ 6 ∷ 6 ∷ 6
    ∷ 6 ∷ 6 ∷ 6 ∷ 6 ∷ 6 ∷ 6 ∷ 6 ∷ 6 ∷ 4 ∷ 4 ∷ 6 ∷ 6 ∷ 4 ∷ 4 ∷ 6 ∷ 6 ∷ 4 ∷ 4 ∷ 6 ∷ 6 ∷ 4 ∷ 4 ∷ 2 ∷ 0
    ∷ 2 ∷ 8 ∷ 2 ∷ 0 ∷ 2 ∷ 8 ∷ 2 ∷ 6 ∷ 2 ∷ 14 ∷ 2 ∷ 7 ∷ 2 ∷ 11 ∷ 2 ∷ 6 ∷ 0 ∷ 10 ∷ 2 ∷ 6 ∷ 0 ∷ 10 ∷ 2
    ∷ 6 ∷ 0 ∷ 10 ∷ 2 ∷ 6 ∷ 0 ∷ 10 ∷ 0 ∷ 0 ∷ 0 ∷ 0 ∷ 0 ∷ 0 ∷ 0 ∷ 0 ∷ 0 ∷ 0 ∷ 0 ∷ 0 ∷ 0 ∷ 0 ∷ 0 ∷ 0
    ∷ 0 ∷ 0 ∷ 0 ∷ 0 ∷ 0 ∷ 0 ∷ 0 ∷ 0 ∷ 0 ∷ 0 ∷ 0 ∷ 0 ∷ 0 ∷ 0 ∷ 0 ∷ 0 ∷ 0 ∷ 0 ∷ 0 ∷ 0 ∷ 0 ∷ 0 ∷ 0 ∷ 0
    ∷ 0 ∷ 0 ∷ 0 ∷ 0 ∷ 0 ∷ 0 ∷ 0 ∷ 0 ∷ 0 ∷ 0 ∷ 0 ∷ 0 ∷ 0 ∷ 0 ∷ 0 ∷ 0 ∷ 0 ∷ 0 ∷ 0 ∷ 0 ∷ 0 ∷ 0 ∷ 0 ∷ 0
    ∷ []

unfoldable pub e82_rom : List ℕ
e82_rom =
    71 ∷ 91 ∷ 10 ∷ 0x91 ∷ 17 ∷ 22 ∷ 0xca ∷ 0x78 ∷ 42 ∷ 23 ∷ 13 ∷ 88 ∷ 21 ∷ 86 ∷ 0 ∷ 0 ∷ 95 ∷ 96
    ∷ 0xaa ∷ 0x8a ∷ 68 ∷ 92 ∷ 0xf1 ∷ 0x96 ∷ 6 ∷ 20 ∷ 0x8d ∷ 0 ∷ 5 ∷ 0 ∷ 0 ∷ 0 ∷ []

unfoldable pub e83_rom : List ℕ
e83_rom =
    0 ∷ 0 ∷ 5 ∷ 0 ∷ 1 ∷ 0 ∷ 0x84 ∷ 0 ∷ 0x82 ∷ 0 ∷ 0x86 ∷ 0 ∷ 0x80 ∷ 0 ∷ 0x81 ∷ 0 ∷ 0 ∷ 0 ∷ 5 ∷ 0 ∷ 1
    ∷ 0 ∷ 0x84 ∷ 0 ∷ 0x82 ∷ 0 ∷ 0x86 ∷ 0 ∷ 1 ∷ 0 ∷ 0 ∷ 0 ∷ []

unfoldable pub e87_rom : List ℕ
e87_rom =
    0xc3 ∷ 0 ∷ 0xf2 ∷ 0 ∷ 0xcf ∷ 0 ∷ 0xd7 ∷ 0 ∷ 0xe0 ∷ 0 ∷ 0xf7 ∷ 0 ∷ 0xf4 ∷ 0 ∷ 0xe7 ∷ 0 ∷ 0xc4 ∷ 0
    ∷ 0xc7 ∷ 0 ∷ 0xd2 ∷ 0 ∷ 0xc9 ∷ 0 ∷ 0xd4 ∷ 0 ∷ 0xb6 ∷ 0 ∷ 0xde ∷ 0 ∷ 67 ∷ 0 ∷ []

unfoldable pub e102_rom : List ℕ
e102_rom =
    0 ∷ 0 ∷ 0 ∷ 4 ∷ 0 ∷ 64 ∷ 0 ∷ 20 ∷ 0 ∷ 2 ∷ 0 ∷ 66 ∷ 0 ∷ 32 ∷ 0 ∷ 0 ∷ 0 ∷ 0x80 ∷ 0 ∷ 56 ∷ 0 ∷ 0
    ∷ 0 ∷ 48 ∷ 0 ∷ 16 ∷ 0 ∷ 0xff ∷ 0 ∷ 1 ∷ 0 ∷ 0 ∷ []
