-- ===== src/Kd11ea/Micro/Traps.antt =====
-- Trap instructions as the microcode executes them.
use ll.Prelude.{ℕ, ◌+◌, ◌-◌, ◌/◌, ◌%◌, ◌^◌}
use ll.Unibus.{BusState}
use ll.Unibus.Ram.{update}
use ll.Kd11ea.Micro.{put_sp, pc, reg}
use ll.Kd11ea.Micro.Run.{Machine, about_to}

pub data Trap : Type 0 where
  bpt : Trap
  iot : Trap
  emt : Trap
  trap : Trap
  reserved : Trap
  illegal : Trap

abbrev pub trap_code : Trap → ℕ
trap_code bpt = 3
trap_code iot = 4
trap_code emt = 0o104000
trap_code trap = 0o104400
trap_code reserved = 7
trap_code illegal = 0o000100

abbrev pub stack : ℕ
stack = 0o700

abbrev pub trap_vector : Trap → ℕ
trap_vector bpt = 0o14
trap_vector iot = 0o20
trap_vector emt = 0o30
trap_vector trap = 0o34
trap_vector reserved = 0o10
trap_vector illegal = 0o4

-- The PSW of every handler, priority 4, so that it differs from the one at the trap.
abbrev pub handler_psw : ℕ
handler_psw = 0o200

-- About to fetch, with the stack pointer set and a vector whose second word is the PSW.
abbrev pub with_handler : ℕ → ℕ → (ℕ → ℕ) → (ℕ → ℕ) → BusState Machine
with_handler instruction vector sp mem =
    about_to instruction (put_sp sp 9 stack) (update mem (vector / 2 + 1) handler_psw)

-- The handler is entered: PSW and PC are on the stack, and those of the vector are loaded.
pub record Entered : Type 0 where
  pub next : ℕ
  pub at : ℕ
  pub top : ℕ
  pub psw : ℕ
  pub mem : ℕ → ℕ

abbrev pub entered : BusState Machine → Entered
entered s =
    let cpu = s.world.cpu in
    record { next = cpu.mpc; at = pc cpu; top = reg cpu 6; psw = cpu.psw; mem = s.world.ram.mem }

abbrev pub handler_of : ℕ → ℕ → ℕ → (ℕ → ℕ) → Entered
handler_of vector old_psw old_pc mem = record {
  next = 0;
  at = mem (vector / 2) % 2 ^ 16;
  top = stack - 4;
  psw = handler_psw;
  mem = update (update mem ((stack - 2) / 2) old_psw) ((stack - 4) / 2) old_pc;
}
