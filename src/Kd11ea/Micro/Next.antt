-- ===== src/Kd11ea/Micro/Next.antt =====
-- The next address of the microprogram (`compute_next_mpc` of pdp11/kd11ea/kd11ea.c): the branches
-- of E102, BUT SERVICE and BUT DEST.
use ll.Prelude.{
  ℕ, ◌*◌, ◌/◌, ◌%◌, ◌^◌, bit_or, Bool, true, false, not, none, some, [], ◌∷◌, ◌==◌, if◌then◌else◌,
  truthy, as_bit, bit, get_or,
}
use ll.Kd11ea.Int.{IntRequest, int_ack, int_pending, arbitrate, br_from}
use ll.Kd11ea.Decode.{lines, service_roms, service_vector, e51_enab_grants}
use ll.Kd11ea.Ucode.{uw_next_mpc, uw_but_bits, uw_but_service, uw_misc, misc_but_dest}
use ll.Kd11ea.Micro.{Cpu}
use ll.Kd11ea.Micro.Decode.{but_dest_entry}
use ll.Kd11ea.Micro.Wires.{byte_mux_ir, e54_data}
use ll.Kd11ea.Micro.Wiring.{e102_addr}
use ll.Kd11ea.Micro.Roms.Function.{e102_rom}

abbrev pub e51_stov_serv : ℕ → ℕ
e51_stov_serv d = bit 2 d

unfoldable pub e102_data : ℕ → ℕ
unfolding e102_addr e102_rom
e102_data uw = get_or e102_rom (e102_addr (uw_but_bits uw)) 0

abbrev pub gated : ℕ → ℕ → ℕ
gated line value = if truthy line then value else 0

-- The lines that E102 lets onto the MPC, the lowest first.
unfoldable pub branch_lines : Cpu → ℕ → ℕ → ℕ → ℕ → ℕ
unfolding byte_mux_ir e102_data
branch_lines cpu uw count bx a_leg =
    let d = e102_data uw in
    let byte = byte_mux_ir cpu.ir in
    let sign = if byte then bit 7 cpu.alu_out else bit 15 cpu.alu_out in
    let zero_h = as_bit ((if byte then cpu.alu_out % 2 ^ 8 else cpu.alu_out % 2 ^ 16) == 0) in
    lines (
      gated (bit 7 d) (bit 9 cpu.ir)
      ∷ gated (bit 6 d) zero_h
      ∷ gated (bit 5 d) (bit 5 count)
      ∷ gated (bit 2 d) (bit 15 a_leg)
      ∷ gated (bit 4 d) (bit 0 bx)
      ∷ gated (bit 3 d) (bit 1 bx)
      ∷ gated (bit 1 d) sign
      ∷ gated (bit 0 d) (cpu.alu_cout % 2)
      ∷ [])

-- The T bit, as far as E54 enables it, and the flip-flop that keeps a stack overflow from
-- interrupting its own trap.
unfoldable pub service_inputs : Cpu → Cpu
unfolding e54_data
service_inputs cpu =
    let enab_tbit = bit 2 (e54_data cpu) in
    record cpu { enab_tbit = enab_tbit; tbit_trap = bit 4 cpu.psw * enab_tbit }

unfoldable pub e51_data : Cpu → ℕ
unfolding service_roms
e51_data cpu =
    service_roms cpu.tbit_trap (as_bit cpu.stov) (as_bit cpu.bus_error) (as_bit cpu.mmu_kte)
      cpu.ir_code

unfoldable pub clock_stov : ℕ → Cpu → Cpu
clock_stov e51 cpu =
    let stov_en = if truthy (e51_stov_serv e51) then not cpu.stov_en else true in
    record cpu { stov_en = stov_en; stov = if stov_en then cpu.stov else false }

unfoldable pub trap_service : ℕ → Cpu → Cpu
unfolding service_vector
trap_service e51 cpu = record cpu {
  service_vector = service_vector e51 (as_bit cpu.mmu_kte) 0;
  service_trap = true;
  service_intr = false;
  bus_error = false;
  tbit_trap = 0;
  mmu_kte = false;
}

abbrev pub interrupt_service : IntRequest → Cpu → Cpu
interrupt_service irq cpu = record cpu {
  service_vector = irq.vector;
  service_trap = true;
  service_intr = true;
}

-- The highest request above the priority of the processor is granted.
unfoldable pub grant_service : Cpu → Bool × Cpu
unfolding int_ack int_pending arbitrate br_from
grant_service cpu = elim (int_ack cpu.intc (cpu.psw / 2 ^ 5 % 8)) [
  | none ↦ (false, cpu)
  | some (irq, intc) ↦ (true, interrupt_service irq (record cpu { intc = intc }))
]

-- What BUT SERVICE does; true puts a line on MPC 00.
unfoldable pub but_service : Cpu → Bool × Cpu
unfolding service_inputs e51_data clock_stov trap_service grant_service e51_enab_grants
but_service cpu =
    let cpu₁ = service_inputs cpu in
    let e51 = e51_data cpu₁ in
    let cpu₂ = clock_stov e51 cpu₁ in
    if not (truthy (e51_enab_grants e51))
    then (true, trap_service e51 cpu₂)
    else if cpu₂.halt_rqst
    then (false, record cpu₂ { halted = true })
    else grant_service cpu₂

unfoldable pub compute_next_mpc : Cpu → ℕ → ℕ → ℕ → ℕ → ℕ × Cpu
unfolding uw_next_mpc branch_lines but_service but_dest_entry
compute_next_mpc cpu uw count bx a_leg =
    let next = bit_or (uw_next_mpc uw) (branch_lines cpu uw count bx a_leg) in
    let service = if truthy (uw_but_service uw) then but_service cpu else (false, cpu) in
    let dest = if uw_misc uw == misc_but_dest then but_dest_entry cpu.ir else 0 in
    (bit_or (bit_or next (as_bit service.0)) dest % 2 ^ 9, service.1)
