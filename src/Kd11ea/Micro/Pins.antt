-- ===== src/Kd11ea/Micro/Pins.antt =====
-- What pdp11/kd11ea/kd11ea.c computes for the probe alone: the mode on the lines of memory
-- management, the condition codes, and the decode PROMs on their pins.
use ll.Prelude.{
  ℕ, ◌+◌, ◌*◌, ◌/◌, ◌%◌, ◌^◌, bit_and, Bool, ◌&&◌, not, ◌==◌, if◌then◌else◌, truthy, as_bit, bit,
  get_or,
}
use ll.Kd11ea.Decode.{e53_data, e71_addr, e107_data, e107_cc_v, e107_cc_c}
use ll.Kd11ea.Decode.Roms.{e71_rom}
use ll.Kd11ea.Ucode.{uw_force_kernel, uw_prev_mode_l}
use ll.Kd11ea.Micro.Decode.{e69_data, e70_data}
use ll.Kd11ea.Micro.Wiring.{e68_cc_code, e59_e60_addr, e63_addr, e74_addr}
use ll.Kd11ea.Micro.Wires.{e68_data, byte_mux_ir}
use ll.Kd11ea.Micro.Roms.Single.{e59_rom, e60_rom, e63_rom, e74_rom}

unfoldable pub mmu_mode_of : ℕ → ℕ → ℕ
mmu_mode_of uw psw =
    if truthy (uw_force_kernel uw)
    then 0
    else if not (truthy (uw_prev_mode_l uw))
    then psw / 2 ^ 12 % 4
    else psw / 2 ^ 14 % 4

unfoldable pub mmu_index : ℕ → ℕ → ℕ → ℕ
unfolding mmu_mode_of
mmu_index uw psw vba = (if mmu_mode_of uw psw == 3 then 8 else 0) + vba / 2 ^ 13

-- CC N, Z, V and C in bits 3-0.
unfoldable pub cc_wires : ℕ → ℕ → ℕ → ℕ → ℕ → ℕ → ℕ
unfolding e107_data e107_cc_v e107_cc_c byte_mux_ir e68_data
cc_wires ir a_leg b_leg alu psw rot_cbit =
    let byte = byte_mux_ir ir in
    let sign = λ (x : ℕ). if byte then bit 7 x else bit 15 x in
    let n = sign alu in
    let z = as_bit (bit_and alu (if byte then 0xff else 0xffff) == 0) in
    let vc =
      e107_data n (sign a_leg) (sign b_leg) rot_cbit (bit 0 psw) (e68_cc_code (e68_data ir)) in
    n * 2 ^ 3 + z * 2 ^ 2 + e107_cc_v vc * 2 + e107_cc_c vc

-- A PROM that is not enabled reads high.
pub record DecodePins : Type 0 where
  pub e53 : ℕ
  pub e59 : ℕ
  pub e60 : ℕ
  pub e63 : ℕ
  pub e69 : ℕ
  pub e70 : ℕ
  pub e71 : ℕ
  pub e74 : ℕ

unfoldable pub decode_pins : ℕ → ℕ → Bool → Bool → DecodePins
unfolding e53_data e59_e60_addr e59_rom e60_rom e63_addr e63_rom e69_data e70_data e71_addr e71_rom
    e74_addr e74_rom
decode_pins ir psw ir_decode_h but_dest_l =
    let ir1412_0 = ir / 2 ^ 12 % 8 == 0 in
    record {
      e53 = e53_data ir (bit 15 psw);
      e59 = if ir_decode_h && ir1412_0 then get_or e59_rom (e59_e60_addr ir) 0 else 0xf;
      e60 = if ir_decode_h && ir1412_0 then get_or e60_rom (e59_e60_addr ir) 0 else 0xf;
      e63 = if ir_decode_h && bit_and ir 0xff00 == 0 then get_or e63_rom (e63_addr ir) 0 else 0xf;
      e69 = e69_data ir but_dest_l ir_decode_h;
      e70 = e70_data ir but_dest_l ir_decode_h;
      e71 =
          if ir_decode_h && bit_and ir 0x7800 == 0 then get_or e71_rom (e71_addr ir psw) 0 else 0xf;
      e74 = if truthy (bit 15 ir) then 0xff else get_or e74_rom (e74_addr ir ir_decode_h) 0;
    }
