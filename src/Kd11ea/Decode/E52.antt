-- ===== src/Kd11ea/Decode/E52.antt =====
-- E52, which orders the conditions that are served between instructions (pdp11/kd11ea/roms/rom_images.h).
use ll.Prelude.{ℕ, List, [], ◌∷◌}

unfoldable pub e52_rom : List ℕ
e52_rom =
    0x0c ∷ 0x02 ∷ 0x08 ∷ 0x08 ∷ 0x0b ∷ 0x02 ∷ 0x08 ∷ 0x08 ∷ 0x0a ∷ 0x0a ∷ 0x08 ∷ 0x08 ∷ 0x0a ∷ 0x0a
    ∷ 0x08 ∷ 0x08 ∷ 0x09 ∷ 0x09 ∷ 0x08 ∷ 0x08 ∷ 0x09 ∷ 0x09 ∷ 0x08 ∷ 0x08 ∷ 0x09 ∷ 0x09 ∷ 0x08
    ∷ 0x08 ∷ 0x09 ∷ 0x09 ∷ 0x08 ∷ 0x08 ∷ 0x0c ∷ 0x02 ∷ 0x08 ∷ 0x08 ∷ 0x0b ∷ 0x02 ∷ 0x08 ∷ 0x08
    ∷ 0x0a ∷ 0x0a ∷ 0x08 ∷ 0x08 ∷ 0x0a ∷ 0x0a ∷ 0x08 ∷ 0x08 ∷ 0x09 ∷ 0x09 ∷ 0x08 ∷ 0x08 ∷ 0x09
    ∷ 0x09 ∷ 0x08 ∷ 0x08 ∷ 0x09 ∷ 0x09 ∷ 0x08 ∷ 0x08 ∷ 0x09 ∷ 0x09 ∷ 0x08 ∷ 0x08 ∷ 0x02 ∷ 0x02
    ∷ 0x08 ∷ 0x08 ∷ 0x02 ∷ 0x02 ∷ 0x08 ∷ 0x08 ∷ 0x0a ∷ 0x0a ∷ 0x08 ∷ 0x08 ∷ 0x0a ∷ 0x0a ∷ 0x08
    ∷ 0x08 ∷ 0x09 ∷ 0x09 ∷ 0x08 ∷ 0x08 ∷ 0x09 ∷ 0x09 ∷ 0x08 ∷ 0x08 ∷ 0x09 ∷ 0x09 ∷ 0x08 ∷ 0x08
    ∷ 0x09 ∷ 0x09 ∷ 0x08 ∷ 0x08 ∷ 0x02 ∷ 0x02 ∷ 0x08 ∷ 0x08 ∷ 0x02 ∷ 0x02 ∷ 0x08 ∷ 0x08 ∷ 0x0a
    ∷ 0x0a ∷ 0x08 ∷ 0x08 ∷ 0x0a ∷ 0x0a ∷ 0x08 ∷ 0x08 ∷ 0x09 ∷ 0x09 ∷ 0x08 ∷ 0x08 ∷ 0x09 ∷ 0x09
    ∷ 0x08 ∷ 0x08 ∷ 0x09 ∷ 0x09 ∷ 0x08 ∷ 0x08 ∷ 0x09 ∷ 0x09 ∷ 0x08 ∷ 0x08 ∷ 0x04 ∷ 0x04 ∷ 0x08
    ∷ 0x08 ∷ 0x04 ∷ 0x04 ∷ 0x08 ∷ 0x08 ∷ 0x0a ∷ 0x0a ∷ 0x08 ∷ 0x08 ∷ 0x0a ∷ 0x0a ∷ 0x08 ∷ 0x08
    ∷ 0x09 ∷ 0x09 ∷ 0x08 ∷ 0x08 ∷ 0x09 ∷ 0x09 ∷ 0x08 ∷ 0x08 ∷ 0x09 ∷ 0x09 ∷ 0x08 ∷ 0x08 ∷ 0x09
    ∷ 0x09 ∷ 0x08 ∷ 0x08 ∷ 0x04 ∷ 0x04 ∷ 0x08 ∷ 0x08 ∷ 0x04 ∷ 0x04 ∷ 0x08 ∷ 0x08 ∷ 0x0a ∷ 0x0a
    ∷ 0x08 ∷ 0x08 ∷ 0x0a ∷ 0x0a ∷ 0x08 ∷ 0x08 ∷ 0x09 ∷ 0x09 ∷ 0x08 ∷ 0x08 ∷ 0x09 ∷ 0x09 ∷ 0x08
    ∷ 0x08 ∷ 0x09 ∷ 0x09 ∷ 0x08 ∷ 0x08 ∷ 0x09 ∷ 0x09 ∷ 0x08 ∷ 0x08 ∷ 0x01 ∷ 0x01 ∷ 0x08 ∷ 0x08
    ∷ 0x01 ∷ 0x01 ∷ 0x08 ∷ 0x08 ∷ 0x0a ∷ 0x0a ∷ 0x08 ∷ 0x08 ∷ 0x0a ∷ 0x0a ∷ 0x08 ∷ 0x08 ∷ 0x09
    ∷ 0x09 ∷ 0x08 ∷ 0x08 ∷ 0x09 ∷ 0x09 ∷ 0x08 ∷ 0x08 ∷ 0x09 ∷ 0x09 ∷ 0x08 ∷ 0x08 ∷ 0x09 ∷ 0x09
    ∷ 0x08 ∷ 0x08 ∷ 0x01 ∷ 0x01 ∷ 0x08 ∷ 0x08 ∷ 0x01 ∷ 0x01 ∷ 0x08 ∷ 0x08 ∷ 0x0a ∷ 0x0a ∷ 0x08
    ∷ 0x08 ∷ 0x0a ∷ 0x0a ∷ 0x08 ∷ 0x08 ∷ 0x09 ∷ 0x09 ∷ 0x08 ∷ 0x08 ∷ 0x09 ∷ 0x09 ∷ 0x08 ∷ 0x08
    ∷ 0x09 ∷ 0x09 ∷ 0x08 ∷ 0x08 ∷ 0x09 ∷ 0x09 ∷ 0x08 ∷ 0x08 ∷ 0x05 ∷ 0x05 ∷ 0x08 ∷ 0x08 ∷ 0x05
    ∷ 0x05 ∷ 0x08 ∷ 0x08 ∷ 0x0a ∷ 0x0a ∷ 0x08 ∷ 0x08 ∷ 0x0a ∷ 0x0a ∷ 0x08 ∷ 0x08 ∷ 0x09 ∷ 0x09
    ∷ 0x08 ∷ 0x08 ∷ 0x09 ∷ 0x09 ∷ 0x08 ∷ 0x08 ∷ 0x09 ∷ 0x09 ∷ 0x08 ∷ 0x08 ∷ 0x09 ∷ 0x09 ∷ 0x08
    ∷ 0x08 ∷ 0x05 ∷ 0x05 ∷ 0x08 ∷ 0x08 ∷ 0x05 ∷ 0x05 ∷ 0x08 ∷ 0x08 ∷ 0x0a ∷ 0x0a ∷ 0x08 ∷ 0x08
    ∷ 0x0a ∷ 0x0a ∷ 0x08 ∷ 0x08 ∷ 0x09 ∷ 0x09 ∷ 0x08 ∷ 0x08 ∷ 0x09 ∷ 0x09 ∷ 0x08 ∷ 0x08 ∷ 0x09
    ∷ 0x09 ∷ 0x08 ∷ 0x08 ∷ 0x09 ∷ 0x09 ∷ 0x08 ∷ 0x08 ∷ 0x00 ∷ 0x00 ∷ 0x08 ∷ 0x08 ∷ 0x00 ∷ 0x00
    ∷ 0x08 ∷ 0x08 ∷ 0x0a ∷ 0x0a ∷ 0x08 ∷ 0x08 ∷ 0x0a ∷ 0x0a ∷ 0x08 ∷ 0x08 ∷ 0x09 ∷ 0x09 ∷ 0x08
    ∷ 0x08 ∷ 0x09 ∷ 0x09 ∷ 0x08 ∷ 0x08 ∷ 0x09 ∷ 0x09 ∷ 0x08 ∷ 0x08 ∷ 0x09 ∷ 0x09 ∷ 0x08 ∷ 0x08
    ∷ 0x00 ∷ 0x00 ∷ 0x08 ∷ 0x08 ∷ 0x00 ∷ 0x00 ∷ 0x08 ∷ 0x08 ∷ 0x0a ∷ 0x0a ∷ 0x08 ∷ 0x08 ∷ 0x0a
    ∷ 0x0a ∷ 0x08 ∷ 0x08 ∷ 0x09 ∷ 0x09 ∷ 0x08 ∷ 0x08 ∷ 0x09 ∷ 0x09 ∷ 0x08 ∷ 0x08 ∷ 0x09 ∷ 0x09
    ∷ 0x08 ∷ 0x08 ∷ 0x09 ∷ 0x09 ∷ 0x08 ∷ 0x08 ∷ 0x03 ∷ 0x03 ∷ 0x08 ∷ 0x08 ∷ 0x03 ∷ 0x03 ∷ 0x08
    ∷ 0x08 ∷ 0x0a ∷ 0x0a ∷ 0x08 ∷ 0x08 ∷ 0x0a ∷ 0x0a ∷ 0x08 ∷ 0x08 ∷ 0x09 ∷ 0x09 ∷ 0x08 ∷ 0x08
    ∷ 0x09 ∷ 0x09 ∷ 0x08 ∷ 0x08 ∷ 0x09 ∷ 0x09 ∷ 0x08 ∷ 0x08 ∷ 0x09 ∷ 0x09 ∷ 0x08 ∷ 0x08 ∷ 0x03
    ∷ 0x03 ∷ 0x08 ∷ 0x08 ∷ 0x03 ∷ 0x03 ∷ 0x08 ∷ 0x08 ∷ 0x0a ∷ 0x0a ∷ 0x08 ∷ 0x08 ∷ 0x0a ∷ 0x0a
    ∷ 0x08 ∷ 0x08 ∷ 0x09 ∷ 0x09 ∷ 0x08 ∷ 0x08 ∷ 0x09 ∷ 0x09 ∷ 0x08 ∷ 0x08 ∷ 0x09 ∷ 0x09 ∷ 0x08
    ∷ 0x08 ∷ 0x09 ∷ 0x09 ∷ 0x08 ∷ 0x08 ∷ 0x0c ∷ 0x02 ∷ 0x08 ∷ 0x08 ∷ 0x0b ∷ 0x02 ∷ 0x08 ∷ 0x08
    ∷ 0x0a ∷ 0x0a ∷ 0x08 ∷ 0x08 ∷ 0x0a ∷ 0x0a ∷ 0x08 ∷ 0x08 ∷ 0x09 ∷ 0x09 ∷ 0x08 ∷ 0x08 ∷ 0x09
    ∷ 0x09 ∷ 0x08 ∷ 0x08 ∷ 0x09 ∷ 0x09 ∷ 0x08 ∷ 0x08 ∷ 0x09 ∷ 0x09 ∷ 0x08 ∷ 0x08 ∷ 0x0c ∷ 0x02
    ∷ 0x08 ∷ 0x08 ∷ 0x0b ∷ 0x02 ∷ 0x08 ∷ 0x08 ∷ 0x0a ∷ 0x0a ∷ 0x08 ∷ 0x08 ∷ 0x0a ∷ 0x0a ∷ 0x08
    ∷ 0x08 ∷ 0x09 ∷ 0x09 ∷ 0x08 ∷ 0x08 ∷ 0x09 ∷ 0x09 ∷ 0x08 ∷ 0x08 ∷ 0x09 ∷ 0x09 ∷ 0x08 ∷ 0x08
    ∷ 0x09 ∷ 0x09 ∷ 0x08 ∷ 0x08 ∷ 0x0f ∷ 0x02 ∷ 0x08 ∷ 0x08 ∷ 0x0b ∷ 0x02 ∷ 0x08 ∷ 0x08 ∷ 0x0a
    ∷ 0x0a ∷ 0x08 ∷ 0x08 ∷ 0x0a ∷ 0x0a ∷ 0x08 ∷ 0x08 ∷ 0x09 ∷ 0x09 ∷ 0x08 ∷ 0x08 ∷ 0x09 ∷ 0x09
    ∷ 0x08 ∷ 0x08 ∷ 0x09 ∷ 0x09 ∷ 0x08 ∷ 0x08 ∷ 0x09 ∷ 0x09 ∷ 0x08 ∷ 0x08 ∷ 0x0c ∷ 0x02 ∷ 0x08
    ∷ 0x08 ∷ 0x0b ∷ 0x02 ∷ 0x08 ∷ 0x08 ∷ 0x0a ∷ 0x0a ∷ 0x08 ∷ 0x08 ∷ 0x0a ∷ 0x0a ∷ 0x08 ∷ 0x08
    ∷ 0x09 ∷ 0x09 ∷ 0x08 ∷ 0x08 ∷ 0x09 ∷ 0x09 ∷ 0x08 ∷ 0x08 ∷ 0x09 ∷ 0x09 ∷ 0x08 ∷ 0x08 ∷ 0x09
    ∷ 0x09 ∷ 0x08 ∷ 0x08 ∷ 0x02 ∷ 0x02 ∷ 0x08 ∷ 0x08 ∷ 0x02 ∷ 0x02 ∷ 0x08 ∷ 0x08 ∷ 0x0a ∷ 0x0a
    ∷ 0x08 ∷ 0x08 ∷ 0x0a ∷ 0x0a ∷ 0x08 ∷ 0x08 ∷ 0x09 ∷ 0x09 ∷ 0x08 ∷ 0x08 ∷ 0x09 ∷ 0x09 ∷ 0x08
    ∷ 0x08 ∷ 0x09 ∷ 0x09 ∷ 0x08 ∷ 0x08 ∷ 0x09 ∷ 0x09 ∷ 0x08 ∷ 0x08 ∷ 0x02 ∷ 0x02 ∷ 0x08 ∷ 0x08
    ∷ 0x02 ∷ 0x02 ∷ 0x08 ∷ 0x08 ∷ 0x0a ∷ 0x0a ∷ 0x08 ∷ 0x08 ∷ 0x0a ∷ 0x0a ∷ 0x08 ∷ 0x08 ∷ 0x09
    ∷ 0x09 ∷ 0x08 ∷ 0x08 ∷ 0x09 ∷ 0x09 ∷ 0x08 ∷ 0x08 ∷ 0x09 ∷ 0x09 ∷ 0x08 ∷ 0x08 ∷ 0x09 ∷ 0x09
    ∷ 0x08 ∷ 0x08 ∷ 0x04 ∷ 0x04 ∷ 0x08 ∷ 0x08 ∷ 0x04 ∷ 0x04 ∷ 0x08 ∷ 0x08 ∷ 0x0a ∷ 0x0a ∷ 0x08
    ∷ 0x08 ∷ 0x0a ∷ 0x0a ∷ 0x08 ∷ 0x08 ∷ 0x09 ∷ 0x09 ∷ 0x08 ∷ 0x08 ∷ 0x09 ∷ 0x09 ∷ 0x08 ∷ 0x08
    ∷ 0x09 ∷ 0x09 ∷ 0x08 ∷ 0x08 ∷ 0x09 ∷ 0x09 ∷ 0x08 ∷ 0x08 ∷ 0x04 ∷ 0x04 ∷ 0x08 ∷ 0x08 ∷ 0x04
    ∷ 0x04 ∷ 0x08 ∷ 0x08 ∷ 0x0a ∷ 0x0a ∷ 0x08 ∷ 0x08 ∷ 0x0a ∷ 0x0a ∷ 0x08 ∷ 0x08 ∷ 0x09 ∷ 0x09
    ∷ 0x08 ∷ 0x08 ∷ 0x09 ∷ 0x09 ∷ 0x08 ∷ 0x08 ∷ 0x09 ∷ 0x09 ∷ 0x08 ∷ 0x08 ∷ 0x09 ∷ 0x09 ∷ 0x08
    ∷ 0x08 ∷ 0x01 ∷ 0x01 ∷ 0x08 ∷ 0x08 ∷ 0x01 ∷ 0x01 ∷ 0x08 ∷ 0x08 ∷ 0x0a ∷ 0x0a ∷ 0x08 ∷ 0x08
    ∷ 0x0a ∷ 0x0a ∷ 0x08 ∷ 0x08 ∷ 0x09 ∷ 0x09 ∷ 0x08 ∷ 0x08 ∷ 0x09 ∷ 0x09 ∷ 0x08 ∷ 0x08 ∷ 0x09
    ∷ 0x09 ∷ 0x08 ∷ 0x08 ∷ 0x09 ∷ 0x09 ∷ 0x08 ∷ 0x08 ∷ 0x01 ∷ 0x01 ∷ 0x08 ∷ 0x08 ∷ 0x01 ∷ 0x01
    ∷ 0x08 ∷ 0x08 ∷ 0x0a ∷ 0x0a ∷ 0x08 ∷ 0x08 ∷ 0x0a ∷ 0x0a ∷ 0x08 ∷ 0x08 ∷ 0x09 ∷ 0x09 ∷ 0x08
    ∷ 0x08 ∷ 0x09 ∷ 0x09 ∷ 0x08 ∷ 0x08 ∷ 0x09 ∷ 0x09 ∷ 0x08 ∷ 0x08 ∷ 0x09 ∷ 0x09 ∷ 0x08 ∷ 0x08
    ∷ 0x05 ∷ 0x05 ∷ 0x08 ∷ 0x08 ∷ 0x05 ∷ 0x05 ∷ 0x08 ∷ 0x08 ∷ 0x0a ∷ 0x0a ∷ 0x08 ∷ 0x08 ∷ 0x0a
    ∷ 0x0a ∷ 0x08 ∷ 0x08 ∷ 0x09 ∷ 0x09 ∷ 0x08 ∷ 0x08 ∷ 0x09 ∷ 0x09 ∷ 0x08 ∷ 0x08 ∷ 0x09 ∷ 0x09
    ∷ 0x08 ∷ 0x08 ∷ 0x09 ∷ 0x09 ∷ 0x08 ∷ 0x08 ∷ 0x05 ∷ 0x05 ∷ 0x08 ∷ 0x08 ∷ 0x05 ∷ 0x05 ∷ 0x08
    ∷ 0x08 ∷ 0x0a ∷ 0x0a ∷ 0x08 ∷ 0x08 ∷ 0x0a ∷ 0x0a ∷ 0x08 ∷ 0x08 ∷ 0x09 ∷ 0x09 ∷ 0x08 ∷ 0x08
    ∷ 0x09 ∷ 0x09 ∷ 0x08 ∷ 0x08 ∷ 0x09 ∷ 0x09 ∷ 0x08 ∷ 0x08 ∷ 0x09 ∷ 0x09 ∷ 0x08 ∷ 0x08 ∷ 0x00
    ∷ 0x00 ∷ 0x08 ∷ 0x08 ∷ 0x00 ∷ 0x00 ∷ 0x08 ∷ 0x08 ∷ 0x0a ∷ 0x0a ∷ 0x08 ∷ 0x08 ∷ 0x0a ∷ 0x0a
    ∷ 0x08 ∷ 0x08 ∷ 0x09 ∷ 0x09 ∷ 0x08 ∷ 0x08 ∷ 0x09 ∷ 0x09 ∷ 0x08 ∷ 0x08 ∷ 0x09 ∷ 0x09 ∷ 0x08
    ∷ 0x08 ∷ 0x09 ∷ 0x09 ∷ 0x08 ∷ 0x08 ∷ 0x00 ∷ 0x00 ∷ 0x08 ∷ 0x08 ∷ 0x00 ∷ 0x00 ∷ 0x08 ∷ 0x08
    ∷ 0x0a ∷ 0x0a ∷ 0x08 ∷ 0x08 ∷ 0x0a ∷ 0x0a ∷ 0x08 ∷ 0x08 ∷ 0x09 ∷ 0x09 ∷ 0x08 ∷ 0x08 ∷ 0x09
    ∷ 0x09 ∷ 0x08 ∷ 0x08 ∷ 0x09 ∷ 0x09 ∷ 0x08 ∷ 0x08 ∷ 0x09 ∷ 0x09 ∷ 0x08 ∷ 0x08 ∷ 0x03 ∷ 0x03
    ∷ 0x08 ∷ 0x08 ∷ 0x03 ∷ 0x03 ∷ 0x08 ∷ 0x08 ∷ 0x0a ∷ 0x0a ∷ 0x08 ∷ 0x08 ∷ 0x0a ∷ 0x0a ∷ 0x08
    ∷ 0x08 ∷ 0x09 ∷ 0x09 ∷ 0x08 ∷ 0x08 ∷ 0x09 ∷ 0x09 ∷ 0x08 ∷ 0x08 ∷ 0x09 ∷ 0x09 ∷ 0x08 ∷ 0x08
    ∷ 0x09 ∷ 0x09 ∷ 0x08 ∷ 0x08 ∷ 0x03 ∷ 0x03 ∷ 0x08 ∷ 0x08 ∷ 0x03 ∷ 0x03 ∷ 0x08 ∷ 0x08 ∷ 0x0a
    ∷ 0x0a ∷ 0x08 ∷ 0x08 ∷ 0x0a ∷ 0x0a ∷ 0x08 ∷ 0x08 ∷ 0x09 ∷ 0x09 ∷ 0x08 ∷ 0x08 ∷ 0x09 ∷ 0x09
    ∷ 0x08 ∷ 0x08 ∷ 0x09 ∷ 0x09 ∷ 0x08 ∷ 0x08 ∷ 0x09 ∷ 0x09 ∷ 0x08 ∷ 0x08 ∷ 0x0f ∷ 0x02 ∷ 0x08
    ∷ 0x08 ∷ 0x0b ∷ 0x02 ∷ 0x08 ∷ 0x08 ∷ 0x0a ∷ 0x0a ∷ 0x08 ∷ 0x08 ∷ 0x0a ∷ 0x0a ∷ 0x08 ∷ 0x08
    ∷ 0x09 ∷ 0x09 ∷ 0x08 ∷ 0x08 ∷ 0x09 ∷ 0x09 ∷ 0x08 ∷ 0x08 ∷ 0x09 ∷ 0x09 ∷ 0x08 ∷ 0x08 ∷ 0x09
    ∷ 0x09 ∷ 0x08 ∷ 0x08 ∷ 0x0c ∷ 0x02 ∷ 0x08 ∷ 0x08 ∷ 0x0b ∷ 0x02 ∷ 0x08 ∷ 0x08 ∷ 0x0a ∷ 0x0a
    ∷ 0x08 ∷ 0x08 ∷ 0x0a ∷ 0x0a ∷ 0x08 ∷ 0x08 ∷ 0x09 ∷ 0x09 ∷ 0x08 ∷ 0x08 ∷ 0x09 ∷ 0x09 ∷ 0x08
    ∷ 0x08 ∷ 0x09 ∷ 0x09 ∷ 0x08 ∷ 0x08 ∷ 0x09 ∷ 0x09 ∷ 0x08 ∷ 0x08 ∷ []
