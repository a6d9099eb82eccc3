-- ===== src/Kd11ea/Micro/Step.antt =====
-- A micro-cycle and an instruction (`kd11ea_ustep` and `kd11ea_step` of pdp11/kd11ea/kd11ea.c). The
-- traces, the ring for the debugger and the sample for the probe are left out.
use ll.Prelude.{
  ℕ, zero, suc, ◌+◌, ◌%◌, ◌^◌, bit_or, Bool, true, false, ◌&&◌, not, ◌==◌, if◌then◌else◌, truthy,
  bit,
}
use ll.Unibus.{Bus, BusState, bus_set_init}
use ll.Kd11ea.Clock.{clockgen_period_ns, clockgen_cycle_ns}
use ll.Kd11ea.Ucode.{uw_long_cycle_l, uw_load_ba, uw_but_service}
use ll.Kd11ea.Micro.{Cpu}
use ll.Kd11ea.Micro.Decode.{ir_decode_entry}
use ll.Kd11ea.Micro.Wires.{Wires, wires}
use ll.Kd11ea.Micro.Transfer.{Host, cpu_of, with_cpu, Transferred, transfer, bus_ctl_of}
use ll.Kd11ea.Micro.Misc.{load_psw_low, double_error, overflow, misc_load, write_sp}
use ll.Kd11ea.Micro.Next.{compute_next_mpc}
use ll.Kd11ea.Micro.Shift.{update_b}

-- The loads after the transfer: the double bus error, OVX, the MISC field and the scratchpad.
unfoldable pub loads : {W : Type 0} → Wires → Cpu → Transferred W → Cpu → Cpu
unfolding load_psw_low double_error overflow misc_load write_sp
loads w before t cpu =
    let psw_low = load_psw_low t.msyn (bus_ctl_of w) cpu.ba in
    let loaded = overflow w before.b_reg (double_error t.set_be_l w cpu) in
    write_sp w t.nxm_abort t.ss_out
      (misc_load w t.nxm_abort psw_low t.ss_out before.rot_cbit before.psw loaded)

-- A service enters its trap sequence, an interrupt with its vector on the data lines.
unfoldable pub serviced : Wires → Cpu → Bool
serviced w cpu = truthy (uw_but_service w.uw) && cpu.service_trap

unfoldable pub enter_service : Bool → Cpu → Cpu
enter_service service cpu =
    if service
    then record cpu {
      service_trap = false;
      unibus_data = if cpu.service_intr then cpu.service_vector else cpu.unibus_data;
      ir_code = 0;
      halt_rqst = false;
      bus_error = false;
    }
    else cpu

-- What the end of the cycle needs: the next address, whether an interrupt was granted, and the
-- processor.
pub record Sequenced : Type 0 where
  pub next : ℕ
  pub intr : Bool
  pub cpu : Cpu

-- An abort sends MPC to 0, and the entry of an instruction is ORed over NEXT.
unfoldable pub sequence : {W : Type 0} → Wires → Cpu → Transferred W → Cpu → Sequenced
unfolding compute_next_mpc serviced enter_service ir_decode_entry update_b
sequence w before t cpu =
    let (computed, cpu₁) = compute_next_mpc cpu w.uw before.count before.bx_reg w.a_leg in
    let service = serviced w cpu₁ in
    let ss_out = if service then cpu₁.service_vector else t.ss_out in
    let cpu₂ = enter_service service cpu₁ in
    let next = if t.nxm_abort then 0 else computed in
    let next' = if w.ir_decode_1 then bit_or next (ir_decode_entry cpu₂.ir cpu₂.psw) else next in
    let cpu₃ = record cpu₂ { ir_valid = if w.ir_decode_1 then false else cpu₂.ir_valid } in
    record {
      next = next';
      intr = service && cpu₁.service_intr;
      cpu = update_b next' w before ss_out service cpu₃;
    }

-- RESET starts when E54 raises its line.
abbrev pub reset_pulse : Wires → Cpu → Bool
reset_pulse w before = truthy (bit 3 w.e54) && not before.reset_inst

-- The registers written last. After a service the pins of the IR read 100000.
unfoldable pub retire : ℕ → Wires → Cpu → Cpu
retire next w cpu = record cpu {
  reset_inst = truthy (bit 3 w.e54);
  serv_ir = if truthy (uw_but_service w.uw) && not cpu.halted then true else cpu.serv_ir;
  mpc = next;
}

module _ {W : Type 0} (host : Host W) (bus : Bus W) where
  abbrev pub advance : ℕ → BusState W → BusState W
  advance ns s =
      let cpu = cpu_of host s in with_cpu host (record cpu { ns_elapsed = cpu.ns_elapsed + ns }) s

  -- BUS INIT is asserted for the length of the pulse.
  unfoldable pub pulse_init : BusState W → BusState W
  pulse_init s =
      let s₁ = bus_set_init bus false (cpu_of host s).ns_elapsed s in
      let s₂ = advance (cpu_of host s₁).timing.reset_ns s₁ in
      bus_set_init bus true (cpu_of host s₂).ns_elapsed s₂

  -- The end of the cycle: its length, and the RESET pulse.
  unfoldable pub conclude : Wires → ℕ → Cpu → Transferred W → Sequenced → ℕ × BusState W
  unfolding retire pulse_init clockgen_cycle_ns
  conclude w period_ns before t q =
      let cycle_ns =
        clockgen_cycle_ns q.cpu.timing period_ns t.msyn (bus_ctl_of w) t.state.lines.last_latency_ns
          (truthy (uw_but_service w.uw)) q.intr in
      let s = advance cycle_ns (with_cpu host q.cpu t.state) in
      let pulse = reset_pulse w before in
      let s' = if pulse then pulse_init s else s in
      (
        if pulse then cycle_ns + q.cpu.timing.reset_ns else cycle_ns,
        with_cpu host (retire q.next w (cpu_of host s')) s',
      )

  -- The time of the cycle in ns, 0 when halted.
  unfoldable pub kd11ea_ustep : BusState W → ℕ × BusState W
  unfolding wires transfer loads sequence conclude clockgen_period_ns
  kd11ea_ustep s =
      let before = cpu_of host s in
      let w = wires before in
      let period_ns =
        clockgen_period_ns before.timing (truthy (uw_long_cycle_l w.uw)) (truthy (uw_load_ba w.uw))
          w.relocate in
      let t = transfer host bus w period_ns s in
      if before.halted
      then (0, s)
      else conclude w period_ns before t
          (sequence w before t (loads w before t (cpu_of host t.state)))

  -- The loop of `kd11ea_step` for the cycles that are left. The last one gives 0 even where it
  -- reaches MPC 0, since the source tests the count first.
  unfoldable pub micro_cycles : ℕ → ℕ → BusState W → ℕ × BusState W
  unfolding kd11ea_ustep
  micro_cycles zero total s = (0, s)
  micro_cycles (suc n) total s =
      let (ns, s') = kd11ea_ustep s in
      elim (ns == 0) [
        | true ↦ (0, s')
        | false ↦ elim (n == 0) [
          | true ↦ (0, s')
          | false ↦ elim ((cpu_of host s').mpc == 0) [
            | true ↦ ((total + ns) % 2 ^ 32, s')
            | false ↦ micro_cycles n ((total + ns) % 2 ^ 32) s'
          ]
        ]
      ]

  unfoldable pub kd11ea_step : BusState W → ℕ × BusState W
  unfolding micro_cycles
  kd11ea_step s = micro_cycles 1000 0 s
