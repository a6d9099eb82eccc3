-- ===== src/Devices/Kw11.antt =====
-- The line clock (pdp11/kw11/kw11.c, kw11.h). `freq_hz` is 0 for what is not positive.
pub mod Requests
use ll.Prelude.{
  ℕ, ◌+◌, ◌/◌, bit_and, bit_or, Bool, true, false, not, ◌==◌, leb, ltb, if◌then◌else◌, truthy,
}
use ll.Kd11ea.Int.{IntController}
use ll.Devices.{cpu_irq_set, cpu_irq_clr}

abbrev pub kw11_vec : ℕ
kw11_vec = 0o100

abbrev pub kw11_pri : ℕ
kw11_pri = 6

abbrev pub kw11_mon : ℕ
kw11_mon = 0x80

abbrev pub kw11_ie : ℕ
kw11_ie = 0x40

pub record Kw11 : Type 0 where
  pub init_l : Bool
  pub lks : ℕ
  pub next_tick_ns : ℕ
  pub tick_interval_ns : ℕ

unfoldable pub kw11_init : ℕ → Kw11
kw11_init freq_hz = record {
  init_l = true;
  lks = 0;
  next_tick_ns = 0;
  tick_interval_ns = 1000000000 / (if freq_hz == 0 then 60 else freq_hz);
}

-- The first tick sets the first edge.
abbrev pub started : ℕ → Kw11 → Kw11
started now kw = record kw {
  next_tick_ns = if kw.next_tick_ns == 0 then now + kw.tick_interval_ns else kw.next_tick_ns;
}

-- One edge, and the time of the next one.
abbrev pub edge : ℕ → Kw11 → Kw11
edge now kw = record kw {
  lks = bit_or kw.lks kw11_mon;
  next_tick_ns =
      if ltb (kw.next_tick_ns + kw.tick_interval_ns) now
      then now + kw.tick_interval_ns
      else kw.next_tick_ns + kw.tick_interval_ns;
}

unfoldable pub kw11_tick : ℕ → Kw11 → IntController → Kw11 × IntController
unfolding cpu_irq_set
kw11_tick now kw ic =
    if not kw.init_l
    then (kw, ic)
    else if leb (started now kw).next_tick_ns now
    then (
      edge now (started now kw),
      if truthy (bit_and (edge now (started now kw)).lks kw11_ie)
          then cpu_irq_set kw11_vec kw11_pri ic
          else ic,
    )
    else (started now kw, ic)

unfoldable pub kw11_read : Kw11 → ℕ
kw11_read kw = kw.lks

unfoldable pub kw11_write : ℕ → Kw11 → IntController → Kw11 × IntController
unfolding cpu_irq_clr
kw11_write word kw ic =
    if not kw.init_l
    then (kw, ic)
    else let lks = bit_and word (bit_or kw11_mon kw11_ie) in
      (
        record kw { lks = lks },
        if not (truthy (bit_and lks kw11_ie)) then cpu_irq_clr kw11_vec ic else ic,
      )

unfoldable pub kw11_bus_init : Bool → Kw11 → IntController → Kw11 × IntController
unfolding cpu_irq_clr
kw11_bus_init true kw ic = (record kw { init_l = true }, ic)
kw11_bus_init false kw ic = (record kw { init_l = false; lks = kw11_mon }, cpu_irq_clr kw11_vec ic)
