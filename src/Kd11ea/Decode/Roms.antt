-- ===== src/Kd11ea/Decode/Roms.antt =====
-- Decode PROMs of the M8266 and M8265 boards, as dumped (pdp11/kd11ea/roms/rom_images.h).
use ll.Prelude.{ℕ, List, [], ◌∷◌}

unfoldable pub e51_rom : List ℕ
e51_rom =
    0x00 ∷ 0x00 ∷ 0x00 ∷ 0x00 ∷ 0x00 ∷ 0x00 ∷ 0x00 ∷ 0x00 ∷ 0x00 ∷ 0x00 ∷ 0x00 ∷ 0x00 ∷ 0x00 ∷ 0x00
    ∷ 0x00 ∷ 0x80 ∷ 0x40 ∷ 0x40 ∷ 0x30 ∷ 0x51 ∷ 0x60 ∷ 0x60 ∷ 0x00 ∷ 0x00 ∷ 0x20 ∷ 0x20 ∷ 0x70
    ∷ 0x00 ∷ 0x10 ∷ 0x44 ∷ 0x00 ∷ 0x80 ∷ []

unfoldable pub e53_rom : List ℕ
e53_rom =
    0x0e ∷ 0x0f ∷ 0x0d ∷ 0x0d ∷ 0x0f ∷ 0x0f ∷ 0x0f ∷ 0x0f ∷ 0x0f ∷ 0x09 ∷ 0x0d ∷ 0x0d ∷ 0x0f ∷ 0x0f
    ∷ 0x0f ∷ 0x0f ∷ 0x07 ∷ 0x0f ∷ 0x0d ∷ 0x0d ∷ 0x0f ∷ 0x0f ∷ 0x0f ∷ 0x0f ∷ 0x0f ∷ 0x0d ∷ 0x0d
    ∷ 0x0d ∷ 0x0f ∷ 0x0f ∷ 0x0f ∷ 0x0f ∷ 0x0d ∷ 0x0d ∷ 0x0d ∷ 0x0d ∷ 0x0d ∷ 0x0d ∷ 0x0f ∷ 0x0f
    ∷ 0x0d ∷ 0x0d ∷ 0x0d ∷ 0x0d ∷ 0x0d ∷ 0x0d ∷ 0x0f ∷ 0x0f ∷ 0x0d ∷ 0x0d ∷ 0x0d ∷ 0x0d ∷ 0x0d
    ∷ 0x0d ∷ 0x0f ∷ 0x0f ∷ 0x0d ∷ 0x0d ∷ 0x0d ∷ 0x0d ∷ 0x0d ∷ 0x0d ∷ 0x0f ∷ 0x0f ∷ 0x0d ∷ 0x0d
    ∷ 0x0d ∷ 0x0d ∷ 0x0d ∷ 0x0d ∷ 0x0f ∷ 0x0f ∷ 0x0d ∷ 0x0d ∷ 0x0d ∷ 0x0d ∷ 0x0d ∷ 0x0d ∷ 0x0f
    ∷ 0x0f ∷ 0x0d ∷ 0x0d ∷ 0x0d ∷ 0x0d ∷ 0x0d ∷ 0x0d ∷ 0x0f ∷ 0x0f ∷ 0x0d ∷ 0x0d ∷ 0x0d ∷ 0x0d
    ∷ 0x0d ∷ 0x0d ∷ 0x0f ∷ 0x0f ∷ 0x0d ∷ 0x0d ∷ 0x0d ∷ 0x0d ∷ 0x0d ∷ 0x0d ∷ 0x0f ∷ 0x0f ∷ 0x0d
    ∷ 0x0d ∷ 0x0d ∷ 0x0d ∷ 0x0d ∷ 0x0d ∷ 0x0f ∷ 0x0f ∷ 0x0d ∷ 0x0d ∷ 0x0d ∷ 0x0d ∷ 0x0d ∷ 0x0d
    ∷ 0x0f ∷ 0x0f ∷ 0x0d ∷ 0x0d ∷ 0x0d ∷ 0x0d ∷ 0x0d ∷ 0x0d ∷ 0x0f ∷ 0x0f ∷ 0x0d ∷ 0x0f ∷ 0x0d
    ∷ 0x0d ∷ 0x0f ∷ 0x0f ∷ 0x0f ∷ 0x0f ∷ 0x0f ∷ 0x09 ∷ 0x0d ∷ 0x0d ∷ 0x0f ∷ 0x0f ∷ 0x0f ∷ 0x0f
    ∷ 0x07 ∷ 0x0f ∷ 0x0d ∷ 0x0d ∷ 0x0f ∷ 0x0f ∷ 0x0f ∷ 0x0f ∷ 0x0f ∷ 0x0d ∷ 0x0d ∷ 0x0d ∷ 0x0f
    ∷ 0x0f ∷ 0x0f ∷ 0x0f ∷ 0x0d ∷ 0x0d ∷ 0x0d ∷ 0x0d ∷ 0x0d ∷ 0x0d ∷ 0x0f ∷ 0x0f ∷ 0x0d ∷ 0x0d
    ∷ 0x0d ∷ 0x0d ∷ 0x0d ∷ 0x0d ∷ 0x0f ∷ 0x0f ∷ 0x0d ∷ 0x0d ∷ 0x0d ∷ 0x0d ∷ 0x0d ∷ 0x0d ∷ 0x0f
    ∷ 0x0f ∷ 0x0d ∷ 0x0d ∷ 0x0d ∷ 0x0d ∷ 0x0d ∷ 0x0d ∷ 0x0f ∷ 0x0f ∷ 0x0d ∷ 0x0d ∷ 0x0d ∷ 0x0d
    ∷ 0x0d ∷ 0x0d ∷ 0x0f ∷ 0x0f ∷ 0x0d ∷ 0x0d ∷ 0x0d ∷ 0x0d ∷ 0x0d ∷ 0x0d ∷ 0x0f ∷ 0x0f ∷ 0x0d
    ∷ 0x0d ∷ 0x0d ∷ 0x0d ∷ 0x0d ∷ 0x0d ∷ 0x0f ∷ 0x0f ∷ 0x0d ∷ 0x0d ∷ 0x0d ∷ 0x0d ∷ 0x0d ∷ 0x0d
    ∷ 0x0f ∷ 0x0f ∷ 0x0d ∷ 0x0d ∷ 0x0d ∷ 0x0d ∷ 0x0d ∷ 0x0d ∷ 0x0f ∷ 0x0f ∷ 0x0d ∷ 0x0d ∷ 0x0d
    ∷ 0x0d ∷ 0x0d ∷ 0x0d ∷ 0x0f ∷ 0x0f ∷ 0x0d ∷ 0x0d ∷ 0x0d ∷ 0x0d ∷ 0x0d ∷ 0x0d ∷ 0x0f ∷ 0x0f
    ∷ 0x0d ∷ 0x0d ∷ 0x0d ∷ 0x0d ∷ 0x0d ∷ 0x0d ∷ 0x0f ∷ 0x0f ∷ []

unfoldable pub e62_rom : List ℕ
e62_rom =
    0x07 ∷ 0x04 ∷ 0x07 ∷ 0x05 ∷ 0x07 ∷ 0x0c ∷ 0x07 ∷ 0x0d ∷ 0x07 ∷ 0x04 ∷ 0x07 ∷ 0x05 ∷ 0x07 ∷ 0x0c
    ∷ 0x07 ∷ 0x0d ∷ 0x07 ∷ 0x07 ∷ 0x07 ∷ 0x07 ∷ 0x07 ∷ 0x07 ∷ 0x07 ∷ 0x07 ∷ 0x07 ∷ 0x07 ∷ 0x07
    ∷ 0x07 ∷ 0x07 ∷ 0x07 ∷ 0x07 ∷ 0x07 ∷ 0x07 ∷ 0x02 ∷ 0x07 ∷ 0x03 ∷ 0x07 ∷ 0x02 ∷ 0x07 ∷ 0x03
    ∷ 0x07 ∷ 0x0a ∷ 0x07 ∷ 0x0b ∷ 0x07 ∷ 0x0a ∷ 0x07 ∷ 0x0b ∷ 0x07 ∷ 0x07 ∷ 0x07 ∷ 0x07 ∷ 0x07
    ∷ 0x07 ∷ 0x07 ∷ 0x07 ∷ 0x07 ∷ 0x07 ∷ 0x07 ∷ 0x07 ∷ 0x07 ∷ 0x07 ∷ 0x07 ∷ 0x07 ∷ 0x07 ∷ 0x04
    ∷ 0x07 ∷ 0x04 ∷ 0x07 ∷ 0x0c ∷ 0x07 ∷ 0x0c ∷ 0x07 ∷ 0x05 ∷ 0x07 ∷ 0x05 ∷ 0x07 ∷ 0x0d ∷ 0x07
    ∷ 0x0d ∷ 0x07 ∷ 0x07 ∷ 0x07 ∷ 0x07 ∷ 0x07 ∷ 0x07 ∷ 0x07 ∷ 0x07 ∷ 0x07 ∷ 0x07 ∷ 0x07 ∷ 0x07
    ∷ 0x07 ∷ 0x07 ∷ 0x07 ∷ 0x07 ∷ 0x07 ∷ 0x02 ∷ 0x07 ∷ 0x02 ∷ 0x07 ∷ 0x02 ∷ 0x07 ∷ 0x02 ∷ 0x07
    ∷ 0x0a ∷ 0x07 ∷ 0x0a ∷ 0x07 ∷ 0x0a ∷ 0x07 ∷ 0x0a ∷ 0x07 ∷ 0x07 ∷ 0x07 ∷ 0x07 ∷ 0x07 ∷ 0x07
    ∷ 0x07 ∷ 0x07 ∷ 0x07 ∷ 0x07 ∷ 0x07 ∷ 0x07 ∷ 0x07 ∷ 0x07 ∷ 0x07 ∷ 0x07 ∷ 0x07 ∷ 0x07 ∷ 0x07
    ∷ 0x07 ∷ 0x07 ∷ 0x07 ∷ 0x07 ∷ 0x07 ∷ 0x07 ∷ 0x07 ∷ 0x07 ∷ 0x07 ∷ 0x07 ∷ 0x07 ∷ 0x07 ∷ 0x07
    ∷ 0x07 ∷ 0x07 ∷ 0x07 ∷ 0x07 ∷ 0x07 ∷ 0x07 ∷ 0x07 ∷ 0x07 ∷ 0x07 ∷ 0x07 ∷ 0x07 ∷ 0x07 ∷ 0x07
    ∷ 0x07 ∷ 0x07 ∷ 0x07 ∷ 0x07 ∷ 0x07 ∷ 0x07 ∷ 0x07 ∷ 0x07 ∷ 0x07 ∷ 0x07 ∷ 0x07 ∷ 0x07 ∷ 0x07
    ∷ 0x07 ∷ 0x07 ∷ 0x07 ∷ 0x07 ∷ 0x07 ∷ 0x07 ∷ 0x07 ∷ 0x07 ∷ 0x07 ∷ 0x07 ∷ 0x07 ∷ 0x07 ∷ 0x07
    ∷ 0x07 ∷ 0x07 ∷ 0x07 ∷ 0x07 ∷ 0x07 ∷ 0x07 ∷ 0x07 ∷ 0x07 ∷ 0x07 ∷ 0x07 ∷ 0x07 ∷ 0x07 ∷ 0x07
    ∷ 0x07 ∷ 0x07 ∷ 0x07 ∷ 0x07 ∷ 0x07 ∷ 0x07 ∷ 0x07 ∷ 0x07 ∷ 0x07 ∷ 0x07 ∷ 0x07 ∷ 0x07 ∷ 0x07
    ∷ 0x07 ∷ 0x07 ∷ 0x07 ∷ 0x07 ∷ 0x07 ∷ 0x07 ∷ 0x07 ∷ 0x07 ∷ 0x07 ∷ 0x07 ∷ 0x07 ∷ 0x07 ∷ 0x07
    ∷ 0x07 ∷ 0x07 ∷ 0x07 ∷ 0x07 ∷ 0x07 ∷ 0x07 ∷ 0x07 ∷ 0x07 ∷ 0x07 ∷ 0x07 ∷ 0x07 ∷ 0x07 ∷ 0x07
    ∷ 0x07 ∷ 0x07 ∷ 0x07 ∷ 0x07 ∷ 0x07 ∷ 0x07 ∷ 0x07 ∷ 0x07 ∷ 0x07 ∷ 0x07 ∷ 0x07 ∷ 0x07 ∷ 0x07
    ∷ 0x07 ∷ 0x07 ∷ 0x07 ∷ 0x07 ∷ 0x07 ∷ 0x07 ∷ 0x07 ∷ 0x07 ∷ []

unfoldable pub e71_rom : List ℕ
e71_rom =
    0x0f ∷ 0x0e ∷ 0x0e ∷ 0x0f ∷ 0x0e ∷ 0x0f ∷ 0x0e ∷ 0x0f ∷ 0x0e ∷ 0x0f ∷ 0x0e ∷ 0x0f ∷ 0x0e ∷ 0x0f
    ∷ 0x0e ∷ 0x0f ∷ 0x0f ∷ 0x0e ∷ 0x0e ∷ 0x0f ∷ 0x0f ∷ 0x0e ∷ 0x0f ∷ 0x0e ∷ 0x0e ∷ 0x0f ∷ 0x0e
    ∷ 0x0f ∷ 0x0f ∷ 0x0e ∷ 0x0e ∷ 0x0f ∷ 0x0f ∷ 0x0e ∷ 0x0f ∷ 0x0e ∷ 0x0e ∷ 0x0f ∷ 0x0f ∷ 0x0e
    ∷ 0x0e ∷ 0x0f ∷ 0x0f ∷ 0x0e ∷ 0x0e ∷ 0x0f ∷ 0x0e ∷ 0x0f ∷ 0x0f ∷ 0x0e ∷ 0x0f ∷ 0x0e ∷ 0x0f
    ∷ 0x0e ∷ 0x0f ∷ 0x0e ∷ 0x0e ∷ 0x0f ∷ 0x0f ∷ 0x0e ∷ 0x0f ∷ 0x0e ∷ 0x0e ∷ 0x0f ∷ 0x0f ∷ 0x0e
    ∷ 0x0e ∷ 0x0f ∷ 0x0f ∷ 0x0e ∷ 0x0f ∷ 0x0e ∷ 0x0f ∷ 0x0e ∷ 0x0e ∷ 0x0f ∷ 0x0e ∷ 0x0f ∷ 0x0e
    ∷ 0x0f ∷ 0x0f ∷ 0x0e ∷ 0x0e ∷ 0x0f ∷ 0x0e ∷ 0x0f ∷ 0x0e ∷ 0x0f ∷ 0x0f ∷ 0x0e ∷ 0x0e ∷ 0x0f
    ∷ 0x0f ∷ 0x0e ∷ 0x0e ∷ 0x0f ∷ 0x0f ∷ 0x0e ∷ 0x0f ∷ 0x0e ∷ 0x0f ∷ 0x0e ∷ 0x0f ∷ 0x0e ∷ 0x0f
    ∷ 0x0e ∷ 0x0f ∷ 0x0e ∷ 0x0e ∷ 0x0f ∷ 0x0e ∷ 0x0f ∷ 0x0f ∷ 0x0e ∷ 0x0f ∷ 0x0e ∷ 0x0e ∷ 0x0f
    ∷ 0x0f ∷ 0x0e ∷ 0x0f ∷ 0x0e ∷ 0x0f ∷ 0x0e ∷ 0x0f ∷ 0x0e ∷ 0x0e ∷ 0x0f ∷ 0x0f ∷ 0x0e ∷ 0x0e
    ∷ 0x0f ∷ 0x0e ∷ 0x0f ∷ 0x0e ∷ 0x0f ∷ 0x0e ∷ 0x0f ∷ 0x0f ∷ 0x0e ∷ 0x0e ∷ 0x0f ∷ 0x0f ∷ 0x0e
    ∷ 0x0f ∷ 0x0e ∷ 0x0e ∷ 0x0f ∷ 0x0f ∷ 0x0e ∷ 0x0f ∷ 0x0e ∷ 0x0e ∷ 0x0f ∷ 0x0f ∷ 0x0e ∷ 0x0f
    ∷ 0x0e ∷ 0x0f ∷ 0x0e ∷ 0x0f ∷ 0x0e ∷ 0x0f ∷ 0x0e ∷ 0x0e ∷ 0x0f ∷ 0x0f ∷ 0x0e ∷ 0x0e ∷ 0x0f
    ∷ 0x0f ∷ 0x0e ∷ 0x0e ∷ 0x0f ∷ 0x0f ∷ 0x0e ∷ 0x0f ∷ 0x0e ∷ 0x0f ∷ 0x0e ∷ 0x0f ∷ 0x0e ∷ 0x0f
    ∷ 0x0e ∷ 0x0e ∷ 0x0f ∷ 0x0f ∷ 0x0e ∷ 0x0f ∷ 0x0e ∷ 0x0f ∷ 0x0e ∷ 0x0f ∷ 0x0e ∷ 0x0e ∷ 0x0f
    ∷ 0x0f ∷ 0x0e ∷ 0x0f ∷ 0x0e ∷ 0x0f ∷ 0x0e ∷ 0x0f ∷ 0x0e ∷ 0x0e ∷ 0x0f ∷ 0x0f ∷ 0x0e ∷ 0x0f
    ∷ 0x0e ∷ 0x0e ∷ 0x0f ∷ 0x0e ∷ 0x0f ∷ 0x0e ∷ 0x0f ∷ 0x0f ∷ 0x0e ∷ 0x0f ∷ 0x0e ∷ 0x0f ∷ 0x0e
    ∷ 0x0f ∷ 0x0e ∷ 0x0f ∷ 0x0e ∷ 0x0f ∷ 0x0e ∷ 0x0f ∷ 0x0e ∷ 0x0f ∷ 0x0e ∷ 0x0f ∷ 0x0e ∷ 0x0f
    ∷ 0x0e ∷ 0x0e ∷ 0x0f ∷ 0x0f ∷ 0x0e ∷ 0x0f ∷ 0x0e ∷ 0x0f ∷ 0x0e ∷ 0x0e ∷ 0x0f ∷ 0x0f ∷ 0x0e
    ∷ 0x0f ∷ 0x0e ∷ 0x0f ∷ 0x0e ∷ 0x0f ∷ 0x0e ∷ 0x0f ∷ 0x0e ∷ []

unfoldable pub e107_rom : List ℕ
e107_rom =
    0x00 ∷ 0x04 ∷ 0x00 ∷ 0x00 ∷ 0x00 ∷ 0x00 ∷ 0x00 ∷ 0x00 ∷ 0x00 ∷ 0x04 ∷ 0x04 ∷ 0x04 ∷ 0x00 ∷ 0x00
    ∷ 0x00 ∷ 0x04 ∷ 0x00 ∷ 0x04 ∷ 0x00 ∷ 0x00 ∷ 0x00 ∷ 0x00 ∷ 0x0c ∷ 0x00 ∷ 0x00 ∷ 0x04 ∷ 0x04
    ∷ 0x04 ∷ 0x00 ∷ 0x00 ∷ 0x0c ∷ 0x04 ∷ 0x00 ∷ 0x04 ∷ 0x00 ∷ 0x00 ∷ 0x04 ∷ 0x04 ∷ 0x00 ∷ 0x00
    ∷ 0x00 ∷ 0x04 ∷ 0x04 ∷ 0x04 ∷ 0x04 ∷ 0x04 ∷ 0x00 ∷ 0x04 ∷ 0x00 ∷ 0x04 ∷ 0x00 ∷ 0x00 ∷ 0x04
    ∷ 0x04 ∷ 0x0c ∷ 0x00 ∷ 0x00 ∷ 0x04 ∷ 0x04 ∷ 0x04 ∷ 0x04 ∷ 0x04 ∷ 0x0c ∷ 0x04 ∷ 0x00 ∷ 0x04
    ∷ 0x00 ∷ 0x08 ∷ 0x08 ∷ 0x04 ∷ 0x00 ∷ 0x00 ∷ 0x00 ∷ 0x04 ∷ 0x04 ∷ 0x0c ∷ 0x08 ∷ 0x04 ∷ 0x00
    ∷ 0x04 ∷ 0x00 ∷ 0x04 ∷ 0x00 ∷ 0x08 ∷ 0x08 ∷ 0x04 ∷ 0x0c ∷ 0x00 ∷ 0x00 ∷ 0x04 ∷ 0x04 ∷ 0x0c
    ∷ 0x08 ∷ 0x04 ∷ 0x0c ∷ 0x04 ∷ 0x00 ∷ 0x04 ∷ 0x00 ∷ 0x08 ∷ 0x00 ∷ 0x0c ∷ 0x00 ∷ 0x00 ∷ 0x00
    ∷ 0x04 ∷ 0x04 ∷ 0x0c ∷ 0x00 ∷ 0x0c ∷ 0x00 ∷ 0x04 ∷ 0x00 ∷ 0x04 ∷ 0x00 ∷ 0x08 ∷ 0x00 ∷ 0x0c
    ∷ 0x0c ∷ 0x00 ∷ 0x00 ∷ 0x04 ∷ 0x04 ∷ 0x0c ∷ 0x00 ∷ 0x0c ∷ 0x0c ∷ 0x04 ∷ 0x00 ∷ 0x04 ∷ 0x08
    ∷ 0x00 ∷ 0x04 ∷ 0x08 ∷ 0x08 ∷ 0x00 ∷ 0x00 ∷ 0x04 ∷ 0x0c ∷ 0x04 ∷ 0x04 ∷ 0x08 ∷ 0x08 ∷ 0x04
    ∷ 0x00 ∷ 0x04 ∷ 0x08 ∷ 0x00 ∷ 0x04 ∷ 0x08 ∷ 0x04 ∷ 0x00 ∷ 0x00 ∷ 0x04 ∷ 0x0c ∷ 0x04 ∷ 0x04
    ∷ 0x08 ∷ 0x04 ∷ 0x04 ∷ 0x00 ∷ 0x04 ∷ 0x08 ∷ 0x00 ∷ 0x0c ∷ 0x00 ∷ 0x08 ∷ 0x00 ∷ 0x00 ∷ 0x04
    ∷ 0x0c ∷ 0x04 ∷ 0x0c ∷ 0x00 ∷ 0x08 ∷ 0x04 ∷ 0x00 ∷ 0x04 ∷ 0x08 ∷ 0x00 ∷ 0x0c ∷ 0x00 ∷ 0x04
    ∷ 0x00 ∷ 0x00 ∷ 0x04 ∷ 0x0c ∷ 0x04 ∷ 0x0c ∷ 0x00 ∷ 0x04 ∷ 0x04 ∷ 0x00 ∷ 0x04 ∷ 0x00 ∷ 0x00
    ∷ 0x00 ∷ 0x00 ∷ 0x08 ∷ 0x00 ∷ 0x00 ∷ 0x04 ∷ 0x04 ∷ 0x04 ∷ 0x00 ∷ 0x00 ∷ 0x08 ∷ 0x04 ∷ 0x00
    ∷ 0x04 ∷ 0x00 ∷ 0x00 ∷ 0x00 ∷ 0x00 ∷ 0x04 ∷ 0x00 ∷ 0x00 ∷ 0x04 ∷ 0x04 ∷ 0x04 ∷ 0x00 ∷ 0x00
    ∷ 0x04 ∷ 0x04 ∷ 0x00 ∷ 0x04 ∷ 0x00 ∷ 0x00 ∷ 0x04 ∷ 0x04 ∷ 0x08 ∷ 0x00 ∷ 0x00 ∷ 0x04 ∷ 0x04
    ∷ 0x04 ∷ 0x04 ∷ 0x04 ∷ 0x08 ∷ 0x04 ∷ 0x00 ∷ 0x04 ∷ 0x00 ∷ 0x00 ∷ 0x04 ∷ 0x04 ∷ 0x04 ∷ 0x00
    ∷ 0x00 ∷ 0x04 ∷ 0x04 ∷ 0x04 ∷ 0x04 ∷ 0x04 ∷ 0x04 ∷ 0x04 ∷ []
