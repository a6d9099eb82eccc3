-- ===== src/Kd11ea/Micro/Wiring.antt =====
-- The wiring of the PROMs of the micro-cycle (pdp11/kd11ea/rom_wiring.h). An address is the list of
-- its lines, the lowest first.
use ll.Prelude.{
  ℕ, ◌+◌, ◌*◌, ◌/◌, ◌%◌, ◌^◌, [], ◌∷◌, ◌==◌, Bool, ◌&&◌, not, truthy, as_bit, bit, bit_or,
}
use ll.Kd11ea.Decode.{lines, low}

unfoldable pub e82_addr : ℕ → ℕ
e82_addr f = lines (bit 3 f ∷ bit 0 f ∷ bit 2 f ∷ bit 1 f ∷ bit 4 f ∷ [])

unfoldable pub e82_bleg : ℕ → ℕ
e82_bleg d = bit 6 d * 2 + bit 7 d

unfoldable pub e82_alu_s : ℕ → ℕ
e82_alu_s d = low (bit 0 d) * 8 + low (bit 1 d) * 4 + low (bit 3 d) * 2 + low (bit 4 d)

abbrev pub bleg_breg : ℕ
bleg_breg = 0

abbrev pub bleg_bxreg : ℕ
bleg_bxreg = 1

abbrev pub bleg_plus16 : ℕ
bleg_plus16 = 2

abbrev pub bleg_plus1 : ℕ
bleg_plus1 = 3

unfoldable pub e87_addr : ℕ → ℕ
e87_addr f = lines (0 ∷ bit 0 f ∷ bit 2 f ∷ bit 3 f ∷ bit 1 f ∷ [])

unfoldable pub e87_b_mode : ℕ → ℕ
e87_b_mode d = low (bit 1 d) * 2 + low (bit 0 d)

unfoldable pub e87_bx_mode : ℕ → ℕ
e87_bx_mode d = bit 3 d * 2 + bit 2 d

unfoldable pub e87_shift_mux_l : ℕ → ℕ
e87_shift_mux_l d = bit 4 d * 2 + bit 5 d

abbrev pub e87_enab_ovx_l : ℕ → ℕ
e87_enab_ovx_l d = bit 6 d

abbrev pub e87_enab_dbe_l : ℕ → ℕ
e87_enab_dbe_l d = bit 7 d

unfoldable pub e102_addr : ℕ → ℕ
e102_addr f = lines (1 ∷ bit 0 f ∷ bit 2 f ∷ bit 3 f ∷ bit 1 f ∷ [])

-- DM0 and SM0: the destination, or the source, is a register.
abbrev pub dm0 : ℕ → ℕ
dm0 ir = as_bit (ir / 2 ^ 3 % 8 == 0)

abbrev pub sm0 : ℕ → ℕ
sm0 ir = as_bit (ir / 2 ^ 9 % 8 == 0)

unfoldable pub e59_e60_addr : ℕ → ℕ
e59_e60_addr ir =
    lines
      (dm0 ir ∷ bit 6 ir ∷ bit 7 ir ∷ bit 8 ir ∷ bit 9 ir ∷ bit 10 ir ∷ bit 11 ir ∷ bit 15 ir ∷ [])

unfoldable pub e63_addr : ℕ → ℕ
e63_addr ir =
    lines
      (bit 0 ir ∷ bit 5 ir ∷ bit 7 ir ∷ bit 1 ir ∷ bit 2 ir ∷ bit 3 ir ∷ bit 4 ir ∷ bit 6 ir ∷ [])

unfoldable pub e68_addr : ℕ → ℕ
e68_addr ir = lines (
    bit 12 ir
    ∷ bit 9 ir
    ∷ bit 10 ir
    ∷ bit 7 ir
    ∷ bit 6 ir
    ∷ bit 14 ir
    ∷ bit 15 ir
    ∷ bit 13 ir
    ∷ bit 8 ir
    ∷ [])

abbrev pub e68_cc_code : ℕ → ℕ
e68_cc_code d = d % 8

abbrev pub e68_byte_l : ℕ → ℕ
e68_byte_l d = bit 3 d

unfoldable pub e69_addr : ℕ → Bool → Bool → ℕ
e69_addr ir but_dest_l ir_decode_h = lines (
    bit 12 ir
    ∷ dm0 ir
    ∷ sm0 ir
    ∷ as_bit ir_decode_h
    ∷ as_bit but_dest_l
    ∷ bit 14 ir
    ∷ bit 15 ir
    ∷ bit 13 ir
    ∷ [])

unfoldable pub e70_addr : ℕ → Bool → Bool → ℕ
unfolding e69_addr
e70_addr ir but_dest_l ir_decode_h = bit_or (e69_addr ir but_dest_l ir_decode_h) (2 ^ 8)

unfoldable pub e74_addr : ℕ → Bool → ℕ
e74_addr ir ir_decode_h =
    let nand = not (truthy (bit 14 ir) && truthy (bit 13 ir) && truthy (bit 12 ir)) in
    lines (bit 9 ir ∷ bit 10 ir ∷ bit 11 ir ∷ as_bit ir_decode_h ∷ as_bit nand ∷ [])

unfoldable pub e83_addr : ℕ → ℕ
e83_addr ir = lines (0 ∷ bit 12 ir ∷ bit 13 ir ∷ bit 14 ir ∷ bit 15 ir ∷ [])

unfoldable pub e83_func_code : ℕ → ℕ
e83_func_code d = bit 7 d * 8 + bit 0 d * 4 + bit 1 d * 2 + bit 2 d

unfoldable pub e61_addr : ℕ → ℕ → ℕ → ℕ
e61_addr ir cbit nbit =
    lines (bit 15 ir ∷ bit 6 ir ∷ bit 7 ir ∷ bit 8 ir ∷ bit 9 ir ∷ bit 10 ir ∷ nbit ∷ cbit ∷ [])

unfoldable pub e80_addr : ℕ → ℕ → ℕ → ℕ → ℕ → ℕ → ℕ → ℕ
e80_addr ss01 ss00 bdt aux byte_h vba00_bdt mov_l =
    lines (byte_h ∷ vba00_bdt ∷ mov_l ∷ aux ∷ bdt ∷ ss01 ∷ 0 ∷ ss00 ∷ [])

unfoldable pub e54_addr : ℕ → ℕ → ℕ
e54_addr ir user_mode = lines (
    bit 0 ir
    ∷ bit 6 ir
    ∷ dm0 ir
    ∷ bit 1 ir
    ∷ bit 2 ir
    ∷ bit 7 ir
    ∷ low user_mode
    ∷ as_bit (not (ir / 2 ^ 8 % 2 ^ 8 == 0))
    ∷ [])

unfoldable pub e59_ir_code : ℕ → ℕ
e59_ir_code d = low (bit 3 d) * 4 + low (bit 2 d) * 2 + low (bit 1 d)
