-- ===== src/Kd11ea/Micro/Run.antt =====
-- A machine of the processor, the Unibus and MS11-L memory alone (pdp11/machine.c assembles them),
-- about to fetch one instruction.
use ll.Prelude.{ℕ, ◌/◌}
use ll.Unibus.{Bus, BusState, bus_init, idle_lines}
use ll.Unibus.Ram.{Ram, ram_init, ram_register, update}
use ll.Kd11ea.Clock.{clock_nominal}
use ll.Kd11ea.Micro.{Cpu, kd11ea_reset, put_sp}
use ll.Kd11ea.Micro.Transfer.{Host}

pub record Machine : Type 0 where
  pub cpu : Cpu
  pub ram : Ram

abbrev pub host : Host Machine
host = record { cpu = λ m. m.cpu; put_cpu = λ cpu m. record m { cpu = cpu } }

-- 28 kilowords, the largest memory below the I/O page without memory management.
abbrev pub memory : Ram
memory = ram_init 28672

unfoldable pub bus : Bus Machine
unfolding ram_register bus_init ram_init
bus = (ram_register (λ m. m.ram) (λ ram m. record m { ram = ram }) memory (bus_init Machine)).1

-- Where the instruction stands.
abbrev pub origin : ℕ
origin = 0o1000

-- The processor after a reset, with any registers but the PC, and any words in memory around the
-- instruction.
unfoldable pub about_to : ℕ → (ℕ → ℕ) → (ℕ → ℕ) → BusState Machine
unfolding kd11ea_reset clock_nominal ram_init
about_to instruction sp mem = record {
  lines = idle_lines;
  world = record {
    cpu = record (kd11ea_reset sp clock_nominal) { sp = put_sp sp 8 origin };
    ram = record memory { mem = update mem (origin / 2) instruction };
  };
}
