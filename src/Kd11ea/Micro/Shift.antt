-- ===== src/Kd11ea/Micro/Shift.antt =====
-- The registers B and BX at the end of a micro-cycle (`kd11ea_ustep` of pdp11/kd11ea/kd11ea.c).
use ll.Prelude.{
  ℕ, ◌*◌, ◌/◌, ◌%◌, ◌^◌, bit_and, bit_or, Bool, ◌&&◌, as_bit, ◌==◌, if◌then◌else◌, truthy, bit,
}
use ll.Kd11ea.Decode.{e62_data, breg_update}
use ll.Kd11ea.Ucode.{ucode_read, uw_aux_control}
use ll.Kd11ea.Micro.{Cpu}
use ll.Kd11ea.Micro.Wiring.{e87_b_mode, e87_bx_mode, e87_shift_mux_l}
use ll.Kd11ea.Micro.Wires.{Wires, byte_mux_ir}

-- E62 is enabled by AUX SETUP, the AUX CONTROL of the next micro-word, for IR 14-12 at 0, and acts
-- on the registers as the cycle found them.
unfoldable pub e62_out : ℕ → Wires → Cpu → ℕ
unfolding byte_mux_ir e62_data ucode_read
e62_out next w before =
    let sign = if byte_mux_ir before.ir then bit 7 w.alu_result else bit 15 w.alu_result in
    if truthy (uw_aux_control (ucode_read next)) && before.ir / 2 ^ 12 % 8 == 0
    then e62_data before.ir (before.b_reg % 2) (before.psw % 2) sign
    else 0xf

-- B MODE is a wired and of E87 and E62.
unfoldable pub b_mode_of : ℕ → ℕ → ℕ
unfolding e87_b_mode
b_mode_of e62 e87 = bit_and (e87_b_mode e87) (bit_or (bit 1 e62) (bit 2 e62 * 2))

unfoldable pub shift_in_b : ℕ → ℕ → Cpu → ℕ
shift_in_b mux e62 before =
    if mux == 1
    then bit 0 e62
    else if mux == 2
    then 0
    else if mux == 3
    then bit 15 before.bx_reg
    else bit 15 before.b_reg

unfoldable pub shift_in_bx : ℕ → Wires → Cpu → ℕ
shift_in_bx mux w before =
    if mux == 1 then as_bit before.ovx else if mux == 2 then 1 else if mux == 3 then 0 else w.cout

-- B, BX and ROT CBIT. A service puts its vector into B; a right shift of BX takes B0.
unfoldable pub update_b : ℕ → Wires → Cpu → ℕ → Bool → Cpu → Cpu
unfolding e62_out b_mode_of shift_in_b shift_in_bx e87_bx_mode e87_shift_mux_l breg_update
update_b next w before ss_out service_load_b cpu =
    let e62 = e62_out next w before in
    let mux = e87_shift_mux_l w.e87 in
    let shift_in_07 = if byte_mux_ir before.ir then bit 0 e62 else bit 8 before.b_reg in
    let bx_mode = e87_bx_mode w.e87 in
    let bx_in = if bx_mode == 2 then before.b_reg % 2 else shift_in_bx mux w before in
    record cpu {
      b_reg =
          if service_load_b
          then cpu.service_vector
          else breg_update cpu.b_reg (b_mode_of e62 w.e87) ss_out (shift_in_b mux e62 before)
              shift_in_07;
      bx_reg = breg_update cpu.bx_reg bx_mode ss_out bx_in (bit 8 before.bx_reg);
      rot_cbit = bit 3 e62;
    }
