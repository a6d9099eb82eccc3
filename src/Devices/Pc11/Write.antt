-- ===== src/Devices/Pc11/Write.antt =====
-- Writes to the registers of the paper tape, and BUS INIT (pdp11/pc11/pc11.c).
use ll.Prelude.{
  ℕ, ◌+◌, ◌%◌, ◌^◌, bit_and, bit_or, Bool, true, false, not, ◌&&◌, none, some, ◌==◌, if◌then◌else◌,
}
use ll.Unibus.{even_addr}
use ll.Kd11ea.Int.{IntController}
use ll.Devices.{cpu_irq_set, cpu_irq_clr}
use ll.Devices.Pc11.{
  Pc11, is_up, with_enable, pc11_prs, pc11_prb, pc11_pps, pc11_ppb, prs_go, pc11_ie, pc11_done,
  prs_busy, pc11_err, ptr_vec, ptp_vec,
}

-- A write of GO to a reader that is not busy.
unfoldable pub reader_go : ℕ → Pc11 → IntController → Pc11 × IntController
unfolding cpu_irq_set cpu_irq_clr
reader_go clock pc ic =
    let prs = bit_or (bit_and pc.prs 0x7f7f) prs_busy in
    let failed = bit_and (bit_or (bit_or prs pc11_err) pc11_done) 0xf7ff in
    elim pc.reader [
      | some tape ↦ (
        record pc { prs = prs; reader_done_ns = clock + pc.reader_char_ns },
        cpu_irq_clr ptr_vec ic,
      )
      | none ↦ (
        record pc { prs = failed },
        if is_up failed pc11_ie
            then cpu_irq_set ptr_vec 4 (cpu_irq_clr ptr_vec ic)
            else cpu_irq_clr ptr_vec ic,
      )
    ]

unfoldable pub write_prs_ie : ℕ → Pc11 → IntController → Pc11 × IntController
unfolding cpu_irq_set cpu_irq_clr
write_prs_ie word pc ic =
    let old_ie = is_up pc.prs pc11_ie in
    let prs = with_enable pc.prs word in
    let new_ie = is_up prs pc11_ie in
    let asked =
      if not old_ie && new_ie && is_up prs (bit_or pc11_done pc11_err)
      then cpu_irq_set ptr_vec 4 ic
      else ic in
    (record pc { prs = prs }, if old_ie && not new_ie then cpu_irq_clr ptr_vec asked else asked)

unfoldable pub write_pps : ℕ → Pc11 → IntController → Pc11 × IntController
unfolding cpu_irq_set cpu_irq_clr
write_pps word pc ic =
    let old_ie = is_up pc.pps pc11_ie in
    let pps = with_enable pc.pps word in
    let new_ie = is_up pps pc11_ie in
    let asked =
      if not old_ie && new_ie && is_up pps (bit_or pc11_done pc11_err)
      then cpu_irq_set ptp_vec 4 ic
      else ic in
    (record pc { pps = pps }, if old_ie && not new_ie then cpu_irq_clr ptp_vec asked else asked)

unfoldable pub write_prs : ℕ → ℕ → Pc11 → IntController → Pc11 × IntController
unfolding write_prs_ie reader_go
write_prs clock word pc ic =
    let w = write_prs_ie word pc ic in
    if is_up word prs_go && not (is_up w.0.prs prs_busy) then reader_go clock w.0 w.1 else w

unfoldable pub write_ppb : ℕ → ℕ → Pc11 → IntController → Pc11 × IntController
unfolding cpu_irq_set cpu_irq_clr
write_ppb clock word pc ic =
    let pps = bit_and pc.pps 0xff7f in
    let failed = bit_or pps (bit_or pc11_err pc11_done) in
    elim pc.punch [
      | some tape ↦ (
        record pc { ppb = word % 2 ^ 8; pps = pps; punch_done_ns = clock + pc.punch_char_ns },
        cpu_irq_clr ptp_vec ic,
      )
      | none ↦ (
        record pc { ppb = word % 2 ^ 8; pps = failed },
        if is_up failed pc11_ie
            then cpu_irq_set ptp_vec 4 (cpu_irq_clr ptp_vec ic)
            else cpu_irq_clr ptp_vec ic,
      )
    ]

-- The Boolean is false for the return value -1.
unfoldable pub pc11_write : ℕ → ℕ → ℕ → Pc11 → IntController → Bool × Pc11 × IntController
unfolding write_prs write_pps write_ppb
pc11_write clock addr word pc ic =
    let reg = even_addr addr in
    if not pc.init_l
    then (true, pc, ic)
    else if reg == pc11_prs
    then (true, (write_prs clock word pc ic).0, (write_prs clock word pc ic).1)
    else if reg == pc11_prb
    then (true, pc, ic)
    else if reg == pc11_pps
    then (true, (write_pps word pc ic).0, (write_pps word pc ic).1)
    else if reg == pc11_ppb
    then (true, (write_ppb clock word pc ic).0, (write_ppb clock word pc ic).1)
    else (false, pc, ic)

unfoldable pub pc11_bus_init : Bool → Pc11 → IntController → Pc11 × IntController
unfolding cpu_irq_clr
pc11_bus_init true pc ic = (record pc { init_l = true }, ic)
pc11_bus_init false pc ic = (
  record pc {
    init_l = false;
    prs = bit_and pc.prs pc11_err;
    pps = bit_or (bit_and pc.pps pc11_err) pc11_done;
    reader_done_ns = 0;
    punch_done_ns = 0;
  },
  cpu_irq_clr ptp_vec (cpu_irq_clr ptr_vec ic),
)
