-- ===== src/Kd11ea/Micro/Decode.antt =====
-- The decode of an instruction into the address of its microprogram (`ir_decode_entry` of
-- pdp11/kd11ea/kd11ea.c, and BUT DEST of `compute_next_mpc`). The PROMs are joined by a wired or.
use ll.Prelude.{
  ℕ, ◌*◌, ◌/◌, ◌%◌, ◌^◌, bit_or, Bool, true, false, ◌&&◌, not, [], ◌∷◌, ◌==◌, if◌then◌else◌, truthy,
  bit, get_or,
}
use ll.Kd11ea.Decode.{lines, low, e71_mpc07_l}
use ll.Kd11ea.Micro.Wiring.{e59_e60_addr, e63_addr, e69_addr, e70_addr, e74_addr}
use ll.Kd11ea.Micro.Roms.Single.{e59_rom, e60_rom, e63_rom, e74_rom}
use ll.Kd11ea.Micro.Roms.Double.{e69_rom, e70_rom}

-- IR 5-3 on MPC 02-00.
abbrev pub dest_mode : ℕ → ℕ
dest_mode ir = ir / 2 ^ 3 % 8

abbrev pub ir1412 : ℕ → ℕ
ir1412 ir = ir / 2 ^ 12 % 8

unfoldable pub e69_data : ℕ → Bool → Bool → ℕ
unfolding e69_addr e69_rom
e69_data ir but_dest_l ir_decode_h = get_or e69_rom (e69_addr ir but_dest_l ir_decode_h) 0

unfoldable pub e70_data : ℕ → Bool → Bool → ℕ
unfolding e70_addr e70_rom
e70_data ir but_dest_l ir_decode_h = get_or e70_rom (e70_addr ir but_dest_l ir_decode_h) 0

-- MPC 07-03 from E69 and E70.
abbrev pub double_lines : ℕ → ℕ → ℕ
double_lines d69 d70 = lines (
    0
    ∷ 0
    ∷ 0
    ∷ low (bit 2 d69)
    ∷ low (bit 3 d69)
    ∷ low (bit 1 d70)
    ∷ low (bit 2 d70)
    ∷ low (bit 3 d70)
    ∷ [])

unfoldable pub double_entry : ℕ → ℕ
unfolding e69_data e70_data
double_entry ir =
    let d69 = e69_data ir true true in
    bit_or (double_lines d69 (e70_data ir true true)) (if bit 0 d69 == 0 then ir / 2 ^ 9 % 8 else 0)

unfoldable pub single_entry : ℕ → ℕ
unfolding e59_e60_addr e59_rom e60_rom
single_entry ir =
    let d60 = get_or e60_rom (e59_e60_addr ir) 0 in
    let d59 = get_or e59_rom (e59_e60_addr ir) 0 in
    bit_or
      (lines
        (0 ∷ 0 ∷ 0 ∷ low (bit 0 d60) ∷ low (bit 1 d60) ∷ low (bit 2 d60) ∷ low (bit 3 d60) ∷ []))
      (if bit 0 d59 == 0 then dest_mode ir else 0)

unfoldable pub operate_entry : ℕ → ℕ
unfolding e63_addr e63_rom
operate_entry ir =
    let d63 = get_or e63_rom (e63_addr ir) 0 in
    lines (low (bit 3 d63) ∷ low (bit 2 d63) ∷ low (bit 1 d63) ∷ low (bit 0 d63) ∷ [])

unfoldable pub e74_data : ℕ → ℕ
unfolding e74_addr e74_rom
e74_data ir = get_or e74_rom (e74_addr ir true) 0

unfoldable pub eis_entry : ℕ → ℕ
unfolding e74_data
eis_entry ir =
    let d74 = e74_data ir in
    bit_or
      (lines (
        0
        ∷ 0
        ∷ 0
        ∷ low (bit 1 d74)
        ∷ low (bit 2 d74)
        ∷ low (bit 3 d74)
        ∷ low (bit 4 d74)
        ∷ low (bit 7 d74)
        ∷ []))
      (if bit 6 d74 == 0 then dest_mode ir else 0)

unfoldable pub ir_decode_entry : ℕ → ℕ → ℕ
unfolding double_entry single_entry operate_entry eis_entry e71_mpc07_l
ir_decode_entry ir psw =
    let ir15 = truthy (bit 15 ir) in
    let single = if ir1412 ir == 0 then single_entry ir else 0 in
    let operate =
      if ir1412 ir == 0 && ir / 2 ^ 8 % 16 == 0 && not ir15 then operate_entry ir else 0 in
    let eis = if ir15 then 0 else eis_entry ir in
    let branch = if ir1412 ir == 0 && bit 11 ir == 0 then low (e71_mpc07_l ir psw) * 2 ^ 7 else 0 in
    bit_or (bit_or (bit_or (bit_or (double_entry ir) single) operate) eis) branch % 2 ^ 9

-- BUT DEST: the entry for the mode of the destination.
unfoldable pub but_dest_entry : ℕ → ℕ
unfolding e69_data e70_data
but_dest_entry ir =
    bit_or (double_lines (e69_data ir false false) (e70_data ir false false)) (dest_mode ir)
