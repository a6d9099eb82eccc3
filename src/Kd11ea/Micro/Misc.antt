-- ===== src/Kd11ea/Micro/Misc.antt =====
-- What a micro-cycle loads after its transfer (`kd11ea_ustep` of pdp11/kd11ea/kd11ea.c): the double
-- bus error, OVX, the MISC field and the scratchpad.
use ll.Prelude.{
  ℕ, ◌+◌, ◌-◌, ◌/◌, ◌%◌, ◌^◌, bit_and, bit_or, Bool, true, false, ◌&&◌, ◌||◌, not, leb, ◌==◌,
  if◌then◌else◌, truthy, as_bit, bit, get_or, [], ◌∷◌,
}
use ll.Unibus.{bus_dato}
use ll.Kd11ea.Decode.{
  lines, low, e53_addr, e53_data, e53_ir_code, e53_halt_rqst, e107_data, e107_cc_v, e107_cc_c,
}
use ll.Kd11ea.Decode.Roms.{e53_rom}
use ll.Kd11ea.Mmu.{sr0_abort_mask}
use ll.Kd11ea.Mmu.Roms.{m8265_e75_rom}
use ll.Kd11ea.Mmu.Wiring.{m8265_e54_io_page_enabled, m8265_e81_general_enabled, m8265_e74_e75_addr}
use ll.Kd11ea.Ucode.{
  uw_misc, uw_force_kernel, uw_spa_dst_sel, misc_load_ir, misc_load_psw, misc_load_cc,
  misc_enab_stov, misc_load_count, misc_clk_count,
}
use ll.Kd11ea.Micro.{Cpu, pc, put_sp, spa_resolve, spa_rba}
use ll.Kd11ea.Micro.Gates.{k2_3_dbe_h}
use ll.Kd11ea.Micro.Decode.{e70_data, e74_data}
use ll.Kd11ea.Micro.Wiring.{e59_e60_addr, e59_ir_code, e87_enab_dbe_l, e87_enab_ovx_l, e68_cc_code}
use ll.Kd11ea.Micro.Wires.{Wires, e68_data, byte_mux_ir}
use ll.Kd11ea.Micro.Roms.Single.{e59_rom}

-- A write to the address of the PSW loads its low byte.
unfoldable pub load_psw_low : Bool → ℕ → ℕ → Bool
load_psw_low msyn bus_ctl ba =
    if msyn && leb bus_dato bus_ctl && m8265_e54_io_page_enabled ba && m8265_e81_general_enabled ba
    then bit 2 (get_or m8265_e75_rom (m8265_e74_e75_addr ba (bit 1 bus_ctl) (bit 0 bus_ctl) 0) 0)
      == 0
    else false

-- A double bus error clears the IR, and E53 requests a HALT.
unfoldable pub double_error : Bool → Wires → Cpu → Cpu
unfolding k2_3_dbe_h e53_addr e53_rom e53_halt_rqst
double_error set_be_l w cpu =
    let user_mode_h = not cpu.bus_error && truthy (bit 15 cpu.psw) in
    let halt = truthy (e53_halt_rqst (get_or e53_rom (e53_addr 0 (as_bit user_mode_h)) 0)) in
    if k2_3_dbe_h set_be_l (truthy (e87_enab_dbe_l w.e87))
    then record cpu { ir = 0; serv_ir = false; halt_rqst = halt; halted = halt }
    else cpu

-- OVX is set by a B whose two upper bits differ, and stays.
unfoldable pub overflow : Wires → ℕ → Cpu → Cpu
overflow w b_before cpu =
    if truthy (e87_enab_ovx_l w.e87)
    then cpu
    else record cpu { ovx = if bit 15 b_before == bit 14 b_before then cpu.ovx else true }

-- The IR code is a wired or of E53, E59, E74 and E70.
unfoldable pub ir_code_of : ℕ → ℕ → ℕ
unfolding e53_data e53_ir_code e59_ir_code e59_e60_addr e59_rom e74_data e70_data
ir_code_of ir psw =
    let e53 = e53_ir_code (e53_data ir (bit 15 psw)) in
    let e59 =
      if ir / 2 ^ 12 % 8 == 0 then e59_ir_code (get_or e59_rom (e59_e60_addr ir) 0) else 0 in
    let e74 = if truthy (bit 15 ir) then 0 else low (bit 5 (e74_data ir)) in
    bit_or (bit_or (bit_or e53 e59) e74) (low (bit 0 (e70_data ir true true)))

unfoldable pub load_ir : Cpu → Cpu
unfolding ir_code_of e53_data e53_halt_rqst
load_ir cpu =
    let ir = cpu.unibus_data in
    record cpu {
      ir = ir;
      serv_ir = false;
      ir_valid = true;
      ovx = false;
      mmu = record cpu.mmu {
        sr2 = if truthy (bit_and cpu.mmu.sr0 sr0_abort_mask) then cpu.mmu.sr2 else pc cpu;
      };
      ir_code = ir_code_of ir cpu.psw;
      halt_rqst = truthy (e53_halt_rqst (e53_data ir (bit 15 cpu.psw)));
    }

-- A trap puts the old mode into the previous one; RTI and RTT of the user change no more than CC
-- and T. There are no bits 11-8.
unfoldable pub load_psw : Wires → Cpu → Cpu
load_psw w cpu =
    let data' = cpu.unibus_data in
    let trapped =
      if truthy (uw_force_kernel w.uw)
      then bit_or (bit_and data' 0xcfff) (bit_and cpu.psw 0xc000 / 2 ^ 2)
      else data' in
    let held =
      if truthy (bit 1 w.e54)
      then bit_or (bit_and trapped 0x0f1f) (bit_and cpu.psw 0xf0e0)
      else trapped in
    record cpu { psw = bit_and held 0xf0ff }

-- The condition codes of the result, N and Z from the ALU and V and C from E107.
abbrev pub cc_of : Wires → Cpu → ℕ → ℕ
cc_of w cpu rot_cbit =
    let byte = byte_mux_ir cpu.ir in
    let sign = λ (x : ℕ). if byte then bit 7 x else bit 15 x in
    let e107 =
      e107_data (sign w.alu_result) (sign w.a_leg) (sign w.b_leg) rot_cbit (cpu.psw % 2)
        (e68_cc_code (e68_data cpu.ir)) in
    lines (
      e107_cc_c e107
      ∷ e107_cc_v e107
      ∷ as_bit ((if byte then w.alu_result % 2 ^ 8 else w.alu_result % 2 ^ 16) == 0)
      ∷ sign w.alu_result
      ∷ [])

unfoldable pub load_cc : Wires → Bool → ℕ → ℕ → Cpu → Cpu
unfolding byte_mux_ir e107_data e107_cc_v e107_cc_c
load_cc w psw_low ss_out rot_cbit cpu = record cpu {
  psw =
      bit_or (bit_and cpu.psw 0xfff0)
        (if not w.aux_control || psw_low then ss_out % 16 else cc_of w cpu rot_cbit);
}

unfoldable pub enab_stov : Wires → ℕ → Cpu → Cpu
enab_stov w psw_before cpu =
    if cpu.stov_en
      && not (truthy (bit 15 psw_before))
      && 15 - w.spa_src % 16 == 6
      && bit_and w.alu_result 0xff00 == 0
    then record cpu { stov = true }
    else cpu

-- The six bit counter goes towards 0.
unfoldable pub clk_count : Cpu → Cpu
clk_count cpu = record cpu {
  count = if truthy (bit 5 cpu.count) then (cpu.count + 1) % 2 ^ 6 else (cpu.count + 63) % 2 ^ 6;
}

-- An aborted transfer loads nothing.
unfoldable pub misc_load : Wires → Bool → Bool → ℕ → ℕ → ℕ → Cpu → Cpu
unfolding load_ir load_psw load_cc enab_stov clk_count
misc_load w nxm_abort psw_low ss_out rot_cbit psw_before cpu =
    let misc = uw_misc w.uw in
    if nxm_abort
    then cpu
    else if misc == misc_load_ir
    then load_ir cpu
    else if misc == misc_load_psw
    then load_psw w cpu
    else if misc == misc_load_cc
    then load_cc w psw_low ss_out rot_cbit cpu
    else if misc == misc_enab_stov
    then enab_stov w psw_before cpu
    else if misc == misc_load_count
    then record cpu { count = ss_out % 2 ^ 6 }
    else if misc == misc_clk_count
    then clk_count cpu
    else cpu

-- The scratchpad is written in every cycle whose destination is not BA; a byte operation leaves
-- the upper byte.
unfoldable pub write_sp : Wires → Bool → ℕ → Cpu → Cpu
write_sp w nxm_abort ss_out cpu =
    let slot = spa_resolve cpu (uw_spa_dst_sel w.uw) w.uw % 16 in
    let word =
      if truthy (bit 0 w.e80)
      then bit_or (bit_and (cpu.sp slot) 0xff00) (ss_out % 2 ^ 8)
      else ss_out in
    if not (uw_spa_dst_sel w.uw == spa_rba) && not nxm_abort
    then record cpu { sp = put_sp cpu.sp slot word }
    else cpu
