-- ===== src/Kd11ea/MicroTests.antt =====
-- Runs of the micro-cycle, and the witnesses of its theorems.
use ll.Prelude.{ℕ, ◌+◌, ◌*◌, ◌/◌, ◌^◌, ◌<◌, ◌≡◌, ◌≢◌, refl, arith, true, false, ◌==◌, if◌then◌else◌}
use ll.Unibus.{BusState}
use ll.Unibus.Ram.{update}
use ll.Kd11ea.Alu.{alu_74s181}
use ll.Kd11ea.Alu.Exact.{alu_74s181-functions}
use ll.Kd11ea.Ucode.{ucode_read, ufr, uw_next_mpc, uw_misc, uw_but_service, misc_but_dest}
use ll.Kd11ea.Micro.{Cpu}
use ll.Kd11ea.Micro.Wires.{wires}
use ll.Kd11ea.Micro.Transfer.{Transferred, cpu_of}
use ll.Kd11ea.Micro.Next.{e102_data}
use ll.Kd11ea.Micro.Step.{kd11ea_ustep, kd11ea_step, loads}
use ll.Kd11ea.Micro.Run.{Machine, host, bus, about_to, origin}
use ll.Kd11ea.Micro.Double.{add, sub, double_code, stored, flags}
use ll.Kd11ea.Micro.Execute.{seen, duration, kd11ea_step-double}
use ll.Kd11ea.Micro.Widths.{IsValid, loads-IsValid}
use ll.Kd11ea.Micro.Cycle.{kd11ea_ustep-positive, kd11ea_step-ends}
use ll.Kd11ea.Micro.Entry.{microcode-entry}

-- R0 holds 40000 and R1 50000; every vector leads to 0o2000.
abbrev registers : ℕ → ℕ
registers i = if i == 15 then 40000 else 50000

abbrev words : ℕ → ℕ
words i = 0o2000

kd11ea_step-double_example :
    seen (kd11ea_step host bus (about_to (double_code sub) registers words)) ≡ record {
      time = duration sub;
      next = 0;
      at = origin + 2;
      r0 = 40000;
      r1 = stored sub 40000 50000;
      psw = 0xe0 + flags sub 40000 50000;
      mem = update words (origin / 2) (double_code sub);
    }
kd11ea_step-double_example = kd11ea_step-double sub registers words (omega arith) (omega arith)

abbrev start : BusState Machine
start = about_to (double_code add) registers words

kd11ea_ustep-positive_example : 0 < (kd11ea_ustep host bus start).0
unfolding about_to
kd11ea_ustep-positive_example =
    kd11ea_ustep-positive host bus start refl (omega arith) (omega arith)

started : (kd11ea_step host bus start).0 ≢ 0
unfolding kd11ea_step bus about_to
started h = absurd (omega (arith, h))

kd11ea_step-ends_example : (cpu_of host (kd11ea_step host bus start).1).mpc ≡ 0
kd11ea_step-ends_example = kd11ea_step-ends host bus start started

microcode-entry_example :
    (uw_next_mpc (ucode_read (uw_next_mpc (ucode_read 0o16))) ≡ 0)
    × (e102_data (ucode_read (uw_next_mpc (ucode_read 0o16))) ≡ 0)
    × (uw_but_service (ucode_read (uw_next_mpc (ucode_read 0o16))) ≡ 0)
    × (uw_misc (ucode_read (uw_next_mpc (ucode_read 0o16))) ≢ misc_but_dest)
unfolding ucode_read ufr
microcode-entry_example = microcode-entry 0o16 (omega arith) refl

alu_74s181-functions_example :
    let value = λ (s : ℕ). (let r = alu_74s181 0xffff 1 s 0 0 in r.1 * 2 ^ 16 + r.0) in
    (value 9 ≡ 0xffff + 1 + 0)
    × (value 6 + 1 ≡ 0xffff + 0xffff + 0)
    × (value 0 ≡ 0xffff + 0)
    × (value 15 ≡ 0xffff + 0xffff + 0)
alu_74s181-functions_example =
    alu_74s181-functions 0xffff 1 0 (omega arith) (omega arith) (omega arith)

abbrev cpu : Cpu
cpu = start.world.cpu

-- A transfer without an answer.
abbrev unanswered : Transferred Machine
unanswered = record { state = start; msyn = true; ss_out = 7; nxm_abort = true; set_be_l = false }

cpu-IsValid : IsValid cpu
unfolding about_to
cpu-IsValid = record {
  sp-lt = λ i. ground arith;
  ir-lt = omega arith;
  psw-lt = omega arith;
  data-lt = omega arith;
  count-lt = omega arith;
}

loads-IsValid_example : IsValid (loads (wires cpu) cpu unanswered cpu)
loads-IsValid_example = loads-IsValid (wires cpu) cpu unanswered cpu (omega arith) cpu-IsValid
