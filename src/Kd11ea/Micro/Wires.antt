-- ===== src/Kd11ea/Micro/Wires.antt =====
-- The first part of a micro-cycle (`kd11ea_ustep` of pdp11/kd11ea/kd11ea.c): what the micro-word and
-- the PROMs select, and the ALU.
use ll.Prelude.{
  ℕ, ◌+◌, ◌-◌, ◌*◌, ◌/◌, ◌%◌, ◌^◌, bit_and, bit_or, Bool, ◌&&◌, ◌||◌, not, [], ◌∷◌, ◌==◌,
  if◌then◌else◌, truthy, as_bit, bit, get_or,
}
use ll.Kd11ea.Decode.{lines, low}
use ll.Kd11ea.Alu.{alu_74s181}
use ll.Kd11ea.Ucode.{
  ufr, ucode_read, uw_alu_func, uw_bbxovxdbe, uw_aux_control, uw_spa_src_sel, uw_buf_dat_tran,
  uw_ssmux, uw_load_ba, uw_misc, uw_enab_maint, misc_but_dest,
}
use ll.Kd11ea.Micro.{Cpu, kd11ea_ir_pins, spa_resolve}
use ll.Kd11ea.Micro.Gates.{k2_4_disable_msyn_plus1_l}
use ll.Kd11ea.Micro.Decode.{e69_data}
use ll.Kd11ea.Micro.Wiring.{
  e82_addr, e82_bleg, e82_alu_s, bleg_breg, bleg_bxreg, bleg_plus16, bleg_plus1, e87_addr, e68_addr,
  e68_byte_l, e83_addr, e83_func_code, e61_addr, e80_addr, e54_addr,
}
use ll.Kd11ea.Micro.Roms.Function.{e61_rom, e80_rom, e82_rom, e83_rom, e87_rom}
use ll.Kd11ea.Micro.Roms.Single.{e54_rom}
use ll.Kd11ea.Micro.Roms.Double.{e68_rom}

abbrev pub sr0_enable : ℕ
sr0_enable = 0x0001

abbrev pub sr0_maint : ℕ
sr0_maint = 0x0100

unfoldable pub e68_data : ℕ → ℕ
unfolding e68_addr e68_rom
e68_data ir = get_or e68_rom (e68_addr ir) 0

unfoldable pub byte_mux_ir : ℕ → Bool
unfolding e68_data
byte_mux_ir ir = not (truthy (e68_byte_l (e68_data ir)))

unfoldable pub amux_select : Cpu → ℕ → ℕ → ℕ
amux_select cpu amux_l alu_result =
    let sel = low (bit 0 amux_l) + low (bit 1 amux_l) * 2 in
    if sel == 0
    then cpu.unibus_data
    else if sel == 1
    then 0
    else if sel == 2
    then alu_result
    else cpu.psw

unfoldable pub ssmux_select : ℕ → ℕ → ℕ → ℕ
ssmux_select amux swap sex =
    if truthy swap
    then amux / 2 ^ 8 % 2 ^ 8 + amux % 2 ^ 8 * 2 ^ 8
    else if truthy sex
    then (if truthy (bit 7 amux) then bit_or amux 0xff00 else amux % 2 ^ 8)
    else amux

unfoldable pub bmux_select : Cpu → ℕ → ℕ
bmux_select cpu bleg =
    if bleg == bleg_breg
    then cpu.b_reg
    else if bleg == bleg_bxreg
    then cpu.bx_reg
    else if bleg == bleg_plus16
    then 14
    else if bleg == bleg_plus1
    then 1
    else 0

-- E82's field under AUX CONTROL: the function code of E61 or E83 over bits 4-1.
unfoldable pub aux_function : ℕ → ℕ → ℕ
unfolding e61_addr e61_rom e83_func_code e83_addr e83_rom
aux_function ir psw =
    if ir / 2 ^ 12 % 8 == 0
    then get_or e61_rom (e61_addr ir (bit 0 psw) (bit 3 psw)) 0 % 16
    else e83_func_code (get_or e83_rom (e83_addr ir) 0)

unfoldable pub e82_data : ℕ → ℕ → ℕ → ℕ
unfolding aux_function e82_addr e82_rom
e82_data uw ir psw =
    let field = uw_alu_func uw in
    let fc = aux_function ir psw in
    let aux = lines (bit 0 field ∷ bit 3 fc ∷ bit 2 fc ∷ bit 1 fc ∷ bit 0 fc ∷ []) in
    get_or e82_rom (e82_addr (if truthy (uw_aux_control uw) then aux else field)) 0

unfoldable pub e54_data : Cpu → ℕ
unfolding e54_addr e54_rom
e54_data cpu = get_or e54_rom (e54_addr (kd11ea_ir_pins cpu) (bit 15 cpu.psw)) 0

unfoldable pub e87_data : ℕ → ℕ
unfolding e87_addr e87_rom
e87_data uw = get_or e87_rom (e87_addr (uw_bbxovxdbe uw)) 0

-- BYTE H is up too while an instruction is decoded.
unfoldable pub byte_h_of : Cpu → Bool
unfolding e68_data
byte_h_of cpu = not (truthy (e68_byte_l (e68_data (kd11ea_ir_pins cpu)))) || cpu.ir_valid

-- E80's data. VBA00 is that of the address that is being loaded.
unfoldable pub e80_data : Cpu → ℕ → ℕ → ℕ
unfolding e80_addr e80_rom e69_data byte_h_of
e80_data cpu uw a_leg =
    let vba00 = if truthy (uw_load_ba uw) then a_leg % 2 else cpu.vba % 2 in
    let bdt = uw_buf_dat_tran uw in
    let mov_l =
      bit 1 (e69_data (kd11ea_ir_pins cpu) (not (uw_misc uw == misc_but_dest)) cpu.ir_valid) in
    let e86_11 = not (truthy vba00 && truthy bdt) in
    get_or e80_rom
      (e80_addr (bit 1 (uw_ssmux uw)) (bit 0 (uw_ssmux uw)) bdt (uw_aux_control uw)
        (as_bit (byte_h_of cpu)) (as_bit (not e86_11)) mov_l)
      0

-- What the cycle computes before it changes anything.
pub record Wires : Type 0 where
  pub uw : ℕ
  pub ir_decode_1 : Bool
  pub aux_control : Bool
  pub spa_src : ℕ
  pub a_leg : ℕ
  pub b_leg : ℕ
  pub e80 : ℕ
  pub e87 : ℕ
  pub e54 : ℕ
  pub byte_h : Bool
  pub disable_msyn_plus1_l : Bool
  pub alu_result : ℕ
  pub cout : ℕ
  pub relocate : Bool

unfoldable pub wires : Cpu → Wires
unfolding ucode_read ufr alu_74s181 e82_data e82_bleg e82_alu_s spa_resolve e80_data e87_data
    e54_data byte_h_of k2_4_disable_msyn_plus1_l bmux_select
wires cpu =
    let uw = ucode_read cpu.mpc in
    let e82 = e82_data uw cpu.ir cpu.psw in
    let bleg = e82_bleg e82 in
    let spa_src = spa_resolve cpu (uw_spa_src_sel uw) uw in
    let a_leg = cpu.sp (spa_src % 16) in
    let e80 = e80_data cpu uw a_leg in
    let r6_7 = (15 - spa_src) / 2 % 4 == 3 in
    let disable_msyn_plus1_l =
      k2_4_disable_msyn_plus1_l (truthy (bit 1 e80)) (not r6_7) (truthy (uw_buf_dat_tran uw)) in
    let b_leg =
      if bleg == bleg_plus1 && not disable_msyn_plus1_l then 0 else bmux_select cpu bleg in
    let alu = alu_74s181 a_leg b_leg (e82_alu_s e82) (bit 2 e82) (as_bit (bit 5 e82 == 0)) in
    record {
      uw = uw;
      ir_decode_1 = cpu.ir_valid;
      aux_control = truthy (uw_aux_control uw);
      spa_src = spa_src;
      a_leg = a_leg;
      b_leg = b_leg;
      e80 = e80;
      e87 = e87_data uw;
      e54 = e54_data cpu;
      byte_h = byte_h_of cpu;
      disable_msyn_plus1_l = disable_msyn_plus1_l;
      alu_result = alu.0;
      cout = alu.1;
      relocate =
          truthy (bit_and cpu.mmu.sr0 sr0_enable)
          || truthy (bit_and cpu.mmu.sr0 sr0_maint) && truthy (uw_enab_maint uw);
    }
