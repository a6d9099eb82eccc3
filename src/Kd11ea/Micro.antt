-- ===== src/Kd11ea/Micro.antt =====
-- The micro-cycle of the processor (`kd11ea_ustep` of pdp11/kd11ea/kd11ea.c): its state. The
-- scratchpad is a function of the slot, and the bits of the PSW and of the PROMs are numbers. The
-- ring for the debugger, the probe and the traces are left out, and so are the fields of `KD11EA`
-- that nothing uses.
pub mod Roms
pub mod Wiring
pub mod Gates
pub mod Decode
pub mod Wires
pub mod Transfer
pub mod Misc
pub mod Next
pub mod Shift
pub mod Step
pub mod Pins
pub mod Run
pub mod Cycle
pub mod Abort
pub mod Entry
pub mod Widths
pub mod Double
pub mod Execute
pub mod Traps
pub mod Interrupts
use ll.Prelude.{
  ℕ, ◌+◌, ◌-◌, ◌*◌, ◌/◌, ◌%◌, ◌^◌, bit_or, Bool, true, false, ◌&&◌, ◌==◌, if◌then◌else◌, truthy,
  bit,
}
use ll.Kd11ea.Int.{IntController, int_init}
use ll.Kd11ea.Mmu.{Mmu, mmu_init}
use ll.Kd11ea.Clock.{ClockTiming}
use ll.Kd11ea.Ucode.{uw_prev_mode_l, uw_rom_spa, uw_force_rsv1_l}

pub record Cpu : Type 0 where
  pub mpc : ℕ
  pub sp : ℕ → ℕ
  pub ir : ℕ
  pub serv_ir : Bool
  pub b_reg : ℕ
  pub bx_reg : ℕ
  pub ba : ℕ
  pub vba : ℕ
  pub alu_out : ℕ
  pub alu_cout : ℕ
  pub psw : ℕ
  pub unibus_data : ℕ
  pub count : ℕ
  pub ovx : Bool
  pub rot_cbit : ℕ
  pub reset_inst : Bool
  pub ir_code : ℕ
  pub halt_rqst : Bool
  pub enab_tbit : ℕ
  pub tbit_trap : ℕ
  pub stov : Bool
  pub stov_en : Bool
  pub service_vector : ℕ
  pub service_trap : Bool
  pub service_intr : Bool
  pub bus_error : Bool
  pub mmu : Mmu
  pub mmu_abort : Bool
  pub mmu_kte : Bool
  pub halted : Bool
  pub ir_valid : Bool
  pub ns_elapsed : ℕ
  pub timing : ClockTiming
  pub intc : IntController

abbrev pub reg : Cpu → ℕ → ℕ
reg cpu n = cpu.sp (15 - n)

abbrev pub pc : Cpu → ℕ
pc cpu = cpu.sp 8

abbrev pub put_sp : (ℕ → ℕ) → ℕ → ℕ → ℕ → ℕ
put_sp sp slot v i = if i == slot then v else sp i

-- The pins of the IR read 100000 after a service.
abbrev pub kd11ea_ir_pins : Cpu → ℕ
kd11ea_ir_pins cpu = if cpu.serv_ir then 0o100000 else cpu.ir

-- The scratchpad as it comes up is a parameter; the stack pointer of the user is then 0.
unfoldable pub kd11ea_reset : (ℕ → ℕ) → ClockTiming → Cpu
unfolding mmu_init int_init
kd11ea_reset power_up timing = record {
  mpc = 0;
  sp = put_sp (λ i. power_up i % 2 ^ 15) 1 0;
  ir = 0;
  serv_ir = false;
  b_reg = 0;
  bx_reg = 0;
  ba = 0;
  vba = 0;
  alu_out = 0;
  alu_cout = 0;
  psw = 0x00e0;
  unibus_data = 0;
  count = 0;
  ovx = false;
  rot_cbit = 0;
  reset_inst = false;
  ir_code = 0;
  halt_rqst = false;
  enab_tbit = 0;
  tbit_trap = 0;
  stov = false;
  stov_en = false;
  service_vector = 0;
  service_trap = false;
  service_intr = false;
  bus_error = false;
  mmu = mmu_init;
  mmu_abort = false;
  mmu_kte = false;
  halted = false;
  ir_valid = false;
  ns_elapsed = 0;
  timing = timing;
  intc = int_init;
}

abbrev pub spa_rom : ℕ
spa_rom = 0

abbrev pub spa_rs : ℕ
spa_rs = 1

abbrev pub spa_rd : ℕ
spa_rd = 2

abbrev pub spa_rba : ℕ
spa_rba = 3

abbrev pub reg_to_spa : ℕ → Bool → ℕ
reg_to_spa reg3 user_mode = if reg3 == 6 && user_mode then 1 else 15 - reg3

-- The slot of the scratchpad that a micro-word selects. R6 of the user is slot 1.
unfoldable pub spa_resolve : Cpu → ℕ → ℕ → ℕ
spa_resolve cpu sel uw =
    let user_mode =
      truthy (if truthy (uw_prev_mode_l uw) then bit 14 cpu.psw else bit 12 cpu.psw) in
    let slot = uw_rom_spa uw in
    let rs = cpu.ir / 2 ^ 6 % 8 in
    if sel == spa_rom
    then (if slot == 9 && user_mode then 1 else slot)
    else if sel == spa_rs
    then reg_to_spa (if truthy (uw_force_rsv1_l uw) then rs else bit_or rs 1) user_mode
    else if sel == spa_rd
    then reg_to_spa (cpu.ir % 8) user_mode
    else if sel == spa_rba
    then cpu.ba / 2 % 16
    else 0
