-- ===== src/Kd11ea/Micro/Transfer.antt =====
-- The bus transfer of a micro-cycle (`kd11ea_ustep` of pdp11/kd11ea/kd11ea.c). The processor is a
-- part of what the devices share, since its PSW and its memory management are registers on the
-- bus and devices call its interrupt controller.
use ll.Prelude.{
  ℕ, ◌+◌, ◌/◌, ◌%◌, ◌^◌, bit_or, Bool, true, false, ◌&&◌, not, Option, none, some, leb, ◌==◌,
  if◌then◌else◌, truthy, bit,
}
use ll.Unibus.{Bus, BusState, bus_read_at, bus_write_at, bus_datip, bus_dato, bus_datob}
use ll.Kd11ea.Mmu.{mmu_translate, mmu_kt_write}
use ll.Kd11ea.Clock.{clockgen_msyn_ns}
use ll.Kd11ea.Ucode.{
  uw_load_ba, uw_force_kernel, uw_prev_mode_l, uw_bus_ctl, uw_buf_dat_tran, uw_amux_l,
}
use ll.Kd11ea.Micro.{Cpu}
use ll.Kd11ea.Micro.Gates.{K2BusAbort, k2_1_bus_abort}
use ll.Kd11ea.Micro.Wires.{Wires, amux_select, ssmux_select}

abbrev pub pdr_w : ℕ
pdr_w = 0x0040

-- The place of the processor in the state that the devices share.
pub record Host (W : Type 0) : Type 0 where
  pub cpu : W → Cpu
  pub put_cpu : Cpu → W → W

-- The mode of the address that is loaded.
abbrev pub ba_mode : ℕ → ℕ → ℕ
ba_mode uw psw =
    if truthy (uw_force_kernel uw)
    then 0
    else if truthy (uw_prev_mode_l uw)
    then psw / 2 ^ 14 % 4
    else psw / 2 ^ 12 % 4

-- The ALU's output, and LOAD BA.
unfoldable pub load_ba : Wires → Cpu → Cpu
unfolding mmu_translate
load_ba w cpu =
    let vba = w.a_leg % 2 ^ 16 in
    let t = mmu_translate cpu.mmu vba (ba_mode w.uw cpu.psw) none w.relocate in
    if truthy (uw_load_ba w.uw)
    then record cpu {
      alu_out = w.alu_result;
      alu_cout = w.cout;
      vba = vba;
      ba = t.pba;
      mmu = t.mmu;
    }
    else record cpu { alu_out = w.alu_result; alu_cout = w.cout }

-- A word DATOB becomes a DATO.
abbrev pub bus_ctl_of : Wires → ℕ
bus_ctl_of w = if uw_bus_ctl w.uw == bus_datob && not w.byte_h then bus_dato else uw_bus_ctl w.uw

abbrev pub has_page : Option ℕ → Bool
has_page none = false
has_page (some page) = true

-- The transfer is checked by memory management when it starts.
unfoldable pub kt_check : Wires → Cpu → Cpu
unfolding mmu_translate
kt_check w cpu =
    let t = mmu_translate cpu.mmu cpu.vba cpu.mmu.mode (some (bus_ctl_of w)) true in
    if truthy (uw_buf_dat_tran w.uw) && has_page cpu.mmu.page && not cpu.mmu_abort
    then record cpu { mmu = t.mmu; mmu_abort = if t.ok then cpu.mmu_abort else true }
    else cpu

-- The lines of the abort network when the transfer starts.
abbrev pub first_abort : Wires → Cpu → K2BusAbort
first_abort w cpu =
    k2_1_bus_abort w.disable_msyn_plus1_l (not cpu.mmu_abort) (truthy (uw_buf_dat_tran w.uw)) true
      false false

unfoldable pub cancel : K2BusAbort → Cpu → Cpu
cancel a cpu = record cpu {
  mmu_abort = false;
  mmu_kte = if cpu.mmu_abort then true else cpu.mmu_kte;
  bus_error = if a.set_be_l then cpu.bus_error else true;
}

-- What the transfer leaves to the rest of the cycle.
pub record Transferred (W : Type 0) : Type 0 where
  pub state : BusState W
  pub msyn : Bool
  pub ss_out : ℕ
  pub nxm_abort : Bool
  pub set_be_l : Bool

abbrev pub ss_of : Wires → Cpu → ℕ
ss_of w cpu =
    ssmux_select (amux_select cpu (uw_amux_l w.uw) w.alu_result) (bit 3 w.e80) (bit 2 w.e80)

-- The W bit of the page that was written.
unfoldable pub page_written : Wires → Cpu → Cpu
page_written w cpu = elim cpu.mmu.page [
  | none ↦ cpu
  | some page ↦ if mmu_kt_write cpu.ba (bus_ctl_of w % 2) then cpu else record cpu {
    mmu = record cpu.mmu {
      pdr = λ i. if i == page then bit_or (cpu.mmu.pdr page) pdr_w else cpu.mmu.pdr i;
    };
  }
]

module _ {W : Type 0} (host : Host W) where
  abbrev pub cpu_of : BusState W → Cpu
  cpu_of s = host.cpu s.world

  abbrev pub with_cpu : Cpu → BusState W → BusState W
  with_cpu cpu s = record s { world = host.put_cpu cpu s.world }

  -- Without SSYN the timeout sets BE and aborts.
  unfoldable pub after_cycle : Wires → Bool → ℕ → Cpu → BusState W → Transferred W
  unfolding k2_1_bus_abort
  after_cycle w ok ss cpu s =
      let a = k2_1_bus_abort w.disable_msyn_plus1_l true true true false true in
      if ok
      then record {
        state = with_cpu cpu s;
        msyn = true;
        ss_out = ss;
        nxm_abort = false;
        set_be_l = true;
      }
      else record {
        state = with_cpu (record cpu { bus_error = if a.set_be_l then cpu.bus_error else true }) s;
        msyn = true;
        ss_out = ss;
        nxm_abort = true;
        set_be_l = a.set_be_l;
      }

  unfoldable pub read_cycle : Bus W → Wires → ℕ → Cpu → BusState W → Transferred W
  unfolding after_cycle bus_read_at ssmux_select amux_select
  read_cycle bus w msyn_ns cpu s =
      let r = bus_read_at bus cpu.ba msyn_ns (with_cpu cpu s) in
      let cpu' = record (cpu_of r.after) { unibus_data = r.word } in
      after_cycle w r.ok (ss_of w cpu') cpu' r.after

  unfoldable pub write_cycle : Bus W → Wires → ℕ → Cpu → BusState W → Transferred W
  unfolding after_cycle page_written bus_write_at
  write_cycle bus w msyn_ns cpu s =
      let ss = ss_of w cpu in
      let r = bus_write_at bus cpu.ba ss (bus_ctl_of w) msyn_ns (with_cpu cpu s) in
      let cpu' = cpu_of r.after in
      after_cycle w r.ok ss (if r.ok then page_written w cpu' else cpu') r.after

  -- From LOAD BA to the end of the transfer.
  unfoldable pub transfer : Bus W → Wires → ℕ → BusState W → Transferred W
  unfolding ssmux_select amux_select load_ba kt_check cancel read_cycle write_cycle clockgen_msyn_ns
  transfer bus w period_ns s =
      let cpu = kt_check w (load_ba w (cpu_of s)) in
      let ss = ss_of w (cpu_of s) in
      let a = first_abort w cpu in
      let msyn_ns = cpu.ns_elapsed + clockgen_msyn_ns cpu.timing period_ns in
      if not (truthy (uw_buf_dat_tran w.uw))
      then record {
        state = with_cpu cpu s;
        msyn = false;
        ss_out = ss;
        nxm_abort = false;
        set_be_l = a.set_be_l;
      }
      else if a.abort_h
      then record {
        state = with_cpu (cancel a cpu) s;
        msyn = false;
        ss_out = ss;
        nxm_abort = true;
        set_be_l = a.set_be_l;
      }
      else if leb (bus_ctl_of w) bus_datip
      then read_cycle bus w msyn_ns cpu s
      else write_cycle bus w msyn_ns cpu s
