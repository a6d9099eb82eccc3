-- ===== src/Kd11ea/Micro/Cycle.antt =====
-- When a micro-cycle and an instruction take time (`kd11ea_ustep` and `kd11ea_step` of
-- pdp11/kd11ea/kd11ea.c).
use ll.Prelude.{
  ℕ, zero, suc, ◌+◌, ◌%◌, ◌^◌, ◌<◌, ◌≤◌, ◌≡◌, ◌≢◌, refl, ap, arith, Bool, true, false, truthy,
  if◌then◌else◌, if_true, if_false, ◌==◌, ==_iff,
}
use ll.Unibus.{Bus, BusState}
use ll.Kd11ea.Clock.{clockgen_period_ns, clockgen_cycle_ns}
use ll.Kd11ea.Clock.Bounds.{clockgen_cycle_ns_bounds}
use ll.Kd11ea.Ucode.{uw_long_cycle_l, uw_load_ba, uw_but_service}
use ll.Kd11ea.Micro.{Cpu}
use ll.Kd11ea.Micro.Wires.{Wires, wires}
use ll.Kd11ea.Micro.Transfer.{Host, cpu_of, transfer, Transferred, bus_ctl_of}
use ll.Kd11ea.Micro.Step.{
  kd11ea_ustep, kd11ea_step, micro_cycles, conclude, Sequenced, sequence, loads, reset_pulse,
}

le_if : (b : Bool) (x y z : ℕ) → x ≤ y → x ≤ (if b then y + z else y)
le_if true x y z h = omega arith
le_if false x y z h = h

module _ {W : Type 0} (host : Host W) (bus : Bus W) where
  -- A halted processor does nothing and takes no time.
  pub kd11ea_ustep-halted :
      (s : BusState W) → (cpu_of host s).halted ≡ true → kd11ea_ustep host bus s ≡ (0, s)
  unfolding kd11ea_ustep
  kd11ea_ustep-halted s h = if_true _ _ _ h

  conclude-period :
      (w : Wires) (period_ns : ℕ) (before : Cpu) (t : Transferred W) (q : Sequenced)
      → period_ns ≤ (conclude host bus w period_ns before t q).0
  unfolding conclude
  conclude-period w period_ns before t q =
      let cycle =
        clockgen_cycle_ns q.cpu.timing period_ns t.msyn (bus_ctl_of w) t.state.lines.last_latency_ns
          (truthy (uw_but_service w.uw)) q.intr in
      let (le, reply, grant, most) =
        clockgen_cycle_ns_bounds q.cpu.timing period_ns t.state.lines.last_latency_ns (bus_ctl_of w)
          t.msyn (truthy (uw_but_service w.uw)) q.intr in
      le_if (reset_pulse w before) period_ns cycle q.cpu.timing.reset_ns le

  period-positive :
      (cpu : Cpu) (long_cycle_l load_ba relocate : Bool)
      → 0 < cpu.timing.short_ns
      → 0 < cpu.timing.long_ns
      → 0 < clockgen_period_ns cpu.timing long_cycle_l load_ba relocate
  unfolding clockgen_period_ns
  period-positive cpu l b r hs hl = ground arith

  -- A processor that runs takes time in every cycle, so that `kd11ea_step` can tell it from one
  -- that halted.
  pub kd11ea_ustep-positive :
      (s : BusState W)
      → (cpu_of host s).halted ≡ false
      → 0 < (cpu_of host s).timing.short_ns
      → 0 < (cpu_of host s).timing.long_ns
      → 0 < (kd11ea_ustep host bus s).0
  unfolding kd11ea_ustep
  kd11ea_ustep-positive s h hs hl =
      let before = cpu_of host s in
      let w = wires before in
      let l = truthy (uw_long_cycle_l w.uw) in
      let b = truthy (uw_load_ba w.uw) in
      let period_ns = clockgen_period_ns before.timing l b w.relocate in
      let t = transfer host bus w period_ns s in
      let q = sequence w before t (loads w before t (cpu_of host t.state)) in
      let e : (kd11ea_ustep host bus s).0 ≡ (conclude host bus w period_ns before t q).0 =
        ap (λ (r : ℕ × BusState W). r.0) (if_false _ _ _ h) in
      omega (
        arith,
        e,
        conclude-period w period_ns before t q,
        period-positive before l b w.relocate hs hl,
      )

  Ends : ℕ × BusState W → Type 0
  Ends r = r.0 ≢ 0 → (cpu_of host r.1).mpc ≡ 0

  loop-Ends :
      (halts last at_zero : Bool) (total : ℕ) (s : BusState W) (rest : ℕ × BusState W)
      → ((cpu_of host s).mpc == 0) ≡ at_zero
      → Ends rest
      → Ends (elim halts [
        | true ↦ (0, s)
        | false ↦ elim last [
          | true ↦ (0, s)
          | false ↦ elim at_zero [ true ↦ (total, s) | false ↦ rest ]
        ]
      ])
  unfolding Ends
  loop-Ends true last at_zero total s rest e h ne = absurd (ne refl)
  loop-Ends false true at_zero total s rest e h ne = absurd (ne refl)
  loop-Ends false false true total s rest e h ne = (==_iff _ _).0 e
  loop-Ends false false false total s rest e h ne = h ne

  micro_cycles-Ends : (n total : ℕ) (s : BusState W) → Ends (micro_cycles host bus n total s)
  unfolding Ends micro_cycles
  micro_cycles-Ends zero total s = λ ne. absurd (ne refl)
  micro_cycles-Ends (suc n) total s =
      let r = kd11ea_ustep host bus s in
      let total' = (total + r.0) % 2 ^ 32 in
      loop-Ends (r.0 == 0) (n == 0) ((cpu_of host r.1).mpc == 0) total' r.1
        (micro_cycles host bus n total' r.1) refl (micro_cycles-Ends n total' r.1)

  -- An instruction that reports a time has come to its end: the microprogram is at MPC 0.
  pub kd11ea_step-ends :
      (s : BusState W)
      → (kd11ea_step host bus s).0 ≢ 0
      → (cpu_of host (kd11ea_step host bus s).1).mpc ≡ 0
  unfolding kd11ea_step Ends
  kd11ea_step-ends s = micro_cycles-Ends 1000 0 s
