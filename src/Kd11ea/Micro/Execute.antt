-- ===== src/Kd11ea/Micro/Execute.antt =====
-- Instructions as the microcode executes them, against the processor handbook.
use ll.Prelude.{
  ℕ, zero, suc, ◌+◌, ◌-◌, ◌/◌, ◌%◌, ◌^◌, ◌<◌, bit_or, true, false, truthy, ◌≡◌, refl, ap, ◌∙◌, ◌==◌,
}
use ll.Prelude.Cases.{sixteen}
use ll.Unibus.{BusState}
use ll.Kd11ea.Clock.{clockgen_period_ns}
use ll.Kd11ea.Ucode.{uw_long_cycle_l, uw_load_ba}
use ll.Kd11ea.Mmu.{mmu_init}
use ll.Kd11ea.Int.{int_init}
use ll.Unibus.Ram.{ram_read, ram_response, update}
use ll.Kd11ea.Micro.{reg, pc}
use ll.Kd11ea.Alu.{alu_74s181}
use ll.Kd11ea.Micro.Wires.{wires, byte_mux_ir, ssmux_select, amux_select}
use ll.Kd11ea.Micro.Transfer.{cpu_of, transfer}
use ll.Kd11ea.Micro.Misc.{write_sp, cc_of}
use ll.Kd11ea.Micro.Step.{kd11ea_ustep, kd11ea_step, micro_cycles, sequence, conclude}
use ll.Kd11ea.Micro.Double.{
  DoubleOp, mov, cmp, bit_test, bic, bis, add, sub, double_code, output, wired, stored, flags,
  flags-lt, output-result, wired-flags,
}
use ll.Kd11ea.Micro.Run.{origin, Machine, host, bus, about_to}

after : ℕ → BusState Machine → BusState Machine
unfolding kd11ea_ustep bus
after zero s = s
after (suc n) s = after n (kd11ea_ustep host bus s).1

-- The cycles before the last one.
abbrev cycles : DoubleOp → ℕ
cycles mov = 3
cycles cmp = 4
cycles bit_test = 4
cycles bic = 4
cycles bis = 4
cycles add = 4
cycles sub = 4

before_last : DoubleOp → (ℕ → ℕ) → (ℕ → ℕ) → BusState Machine
unfolding after about_to
before_last op sp mem = after (cycles op) (about_to (double_code op) sp mem)

-- The end of the last cycle, by the condition codes that it loads.
last_cycle : BusState Machine → ℕ → ℕ × BusState Machine
unfolding wires transfer write_sp sequence conclude clockgen_period_ns bus
last_cycle s cc =
    let before = cpu_of host s in
    let w = wires before in
    let period_ns =
      clockgen_period_ns before.timing (truthy (uw_long_cycle_l w.uw)) (truthy (uw_load_ba w.uw))
        w.relocate in
    let t = transfer host bus w period_ns s in
    let cpu = cpu_of host t.state in
    conclude host bus w period_ns before t
      (sequence w before t (write_sp w t.nxm_abort t.ss_out (record cpu { psw = bit_or 224 cc })))

codes : BusState Machine → ℕ
unfolding wires
codes s = cc_of (wires (cpu_of host s)) (cpu_of host s) 1

codes-wired :
    (op : DoubleOp) (sp mem : ℕ → ℕ) → codes (before_last op sp mem) ≡ wired op (sp 15) (sp 14)
unfolding codes before_last mmu_init int_init transfer ram_read ram_response clockgen_period_ns
    byte_mux_ir alu_74s181 ssmux_select amux_select
codes-wired mov sp mem = refl
codes-wired cmp sp mem = refl
codes-wired bit_test sp mem = refl
codes-wired bic sp mem = refl
codes-wired bis sp mem = refl
codes-wired add sp mem = refl
codes-wired sub sp mem = refl

-- The time before the last cycle, and what the loop does with the last one.
abbrev elapsed : DoubleOp → ℕ
elapsed mov = 1349
elapsed cmp = 1529
elapsed bit_test = 1529
elapsed bic = 1529
elapsed bis = 1529
elapsed add = 1529
elapsed sub = 1529

closing : DoubleOp → ℕ × BusState Machine → ℕ × BusState Machine
unfolding micro_cycles bus
closing op r = elim (r.0 == 0) [
  | true ↦ (0, r.1)
  | false ↦ elim ((cpu_of host r.1).mpc == 0) [
    | true ↦ ((elapsed op + r.0) % 2 ^ 32, r.1)
    | false ↦ micro_cycles host bus (999 - cycles op) ((elapsed op + r.0) % 2 ^ 32) r.1
  ]
]

finished : DoubleOp → (ℕ → ℕ) → (ℕ → ℕ) → ℕ → ℕ × BusState Machine
unfolding closing last_cycle before_last
finished op sp mem cc = closing op (last_cycle (before_last op sp mem) cc)

kd11ea_step-finished :
    (op : DoubleOp) (sp mem : ℕ → ℕ)
    → kd11ea_step host bus (about_to (double_code op) sp mem)
      ≡ finished op sp mem (codes (before_last op sp mem))
unfolding kd11ea_step finished codes before_last mmu_init int_init transfer ram_read ram_response
    clockgen_period_ns byte_mux_ir alu_74s181 ssmux_select amux_select
kd11ea_step-finished mov sp mem = refl
kd11ea_step-finished cmp sp mem = refl
kd11ea_step-finished bit_test sp mem = refl
kd11ea_step-finished bic sp mem = refl
kd11ea_step-finished bis sp mem = refl
kd11ea_step-finished add sp mem = refl
kd11ea_step-finished sub sp mem = refl

-- What an instruction shows: its time, the MPC, the PC, R0, R1, the PSW and the words of memory.
pub record Seen : Type 0 where
  pub time : ℕ
  pub next : ℕ
  pub at : ℕ
  pub r0 : ℕ
  pub r1 : ℕ
  pub psw : ℕ
  pub mem : ℕ → ℕ

abbrev pub seen : ℕ × BusState Machine → Seen
seen r =
    let cpu = r.1.world.cpu in
    record {
      time = r.0;
      next = cpu.mpc;
      at = pc cpu;
      r0 = reg cpu 0;
      r1 = reg cpu 1;
      psw = cpu.psw;
      mem = r.1.world.ram.mem;
    }

-- The time of an instruction with its fetch, in ns.
abbrev pub duration : DoubleOp → ℕ
duration mov = 1529
duration op = 1709

abbrev kept : DoubleOp → ℕ → ℕ → ℕ
kept cmp d out = d
kept bit_test d out = d
kept op d out = out

abbrev shown : DoubleOp → (ℕ → ℕ) → (ℕ → ℕ) → ℕ → ℕ → Seen
shown op sp mem r1 cc = record {
  time = duration op;
  next = 0;
  at = origin + 2;
  r0 = sp 15;
  r1 = r1;
  psw = 0xe0 + cc;
  mem = update mem (origin / 2) (double_code op);
}

Shows : DoubleOp → (ℕ → ℕ) → (ℕ → ℕ) → ℕ → Type 0
unfolding finished
Shows op sp mem cc =
    seen (finished op sp mem cc) ≡ shown op sp mem (kept op (sp 14) (output op (sp 15) (sp 14))) cc

shows : (op : DoubleOp) (sp mem : ℕ → ℕ) (cc : ℕ) → cc < 16 → Shows op sp mem cc
unfolding Shows finished mmu_init int_init ram_read ram_response clockgen_period_ns byte_mux_ir
    alu_74s181 ssmux_select amux_select
shows mov sp mem =
    sixteen (Shows mov sp mem) refl refl refl refl refl refl refl refl refl refl refl refl refl refl
      refl refl
shows cmp sp mem =
    sixteen (Shows cmp sp mem) refl refl refl refl refl refl refl refl refl refl refl refl refl refl
      refl refl
shows bit_test sp mem =
    sixteen (Shows bit_test sp mem) refl refl refl refl refl refl refl refl refl refl refl refl refl
      refl refl refl
shows bic sp mem =
    sixteen (Shows bic sp mem) refl refl refl refl refl refl refl refl refl refl refl refl refl refl
      refl refl
shows bis sp mem =
    sixteen (Shows bis sp mem) refl refl refl refl refl refl refl refl refl refl refl refl refl refl
      refl refl
shows add sp mem =
    sixteen (Shows add sp mem) refl refl refl refl refl refl refl refl refl refl refl refl refl refl
      refl refl
shows sub sp mem =
    sixteen (Shows sub sp mem) refl refl refl refl refl refl refl refl refl refl refl refl refl refl
      refl refl

kept-stored :
    (op : DoubleOp) (s d : ℕ) → s < 2 ^ 16 → d < 2 ^ 16 → kept op d (output op s d) ≡ stored op s d
kept-stored cmp s d hs hd = refl
kept-stored bit_test s d hs hd = refl
kept-stored mov s d hs hd = output-result mov s d hs hd
kept-stored bic s d hs hd = output-result bic s d hs hd
kept-stored bis s d hs hd = output-result bis s d hs hd
kept-stored add s d hs hd = output-result add s d hs hd
kept-stored sub s d hs hd = output-result sub s d hs hd

-- The microcode executes MOV, CMP, BIT, BIC, BIS, ADD and SUB from R0 to R1 as the processor
-- handbook says, for all words in R0 and R1 and whatever the other registers and memory hold, on
-- a processor after a reset with MS11-L memory on its bus. R1 takes the result, or keeps its
-- value for CMP and BIT; N, Z, V and C are those of the result; R0 and memory do not change; the
-- PC steps to the next word, the microprogram is back at MPC 0, and the time is that of the
-- cycles.
pub kd11ea_step-double :
    (op : DoubleOp) (sp mem : ℕ → ℕ)
    → sp 15 < 2 ^ 16
    → sp 14 < 2 ^ 16
    → seen (kd11ea_step host bus (about_to (double_code op) sp mem)) ≡ record {
      time = duration op;
      next = 0;
      at = origin + 2;
      r0 = sp 15;
      r1 = stored op (sp 15) (sp 14);
      psw = 0xe0 + flags op (sp 15) (sp 14);
      mem = update mem (origin / 2) (double_code op);
    }
unfolding Shows
kd11ea_step-double op sp mem hs hd =
    let cc = flags op (sp 15) (sp 14) in
    ap seen (kd11ea_step-finished op sp mem)
    ∙ ap (λ c. seen (finished op sp mem c))
        (codes-wired op sp mem ∙ wired-flags op (sp 15) (sp 14) hs hd)
    ∙ shows op sp mem cc (flags-lt op (sp 15) (sp 14))
    ∙ ap (λ r. shown op sp mem r cc) (kept-stored op (sp 15) (sp 14) hs hd)
