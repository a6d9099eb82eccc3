-- ===== src/Kd11ea/Micro/Interrupts.antt =====
-- An interrupt from the request of a device to the handler: `cpu_irq_set` of pdp11/machine.c, the
-- interrupt controller, the microcode, the Unibus and memory together.
use ll.Prelude.{ℕ, ◌+◌, ◌*◌, ◌^◌, ◌<◌, ◌≤◌, ◌≡◌}
use ll.Unibus.{BusState}
use ll.Devices.{cpu_irq_set}
use ll.Devices.Kw11.{kw11_vec, kw11_pri}
use ll.Devices.Dl11.{rx_vec, tx_vec}
use ll.Devices.Pc11.{ptr_vec, ptp_vec}
use ll.Devices.Rk11.{rk_vec}
use ll.Kd11ea.Int.{int_init}
use ll.Kd11ea.Micro.{pc}
use ll.Kd11ea.Micro.Step.{kd11ea_step}
use ll.Kd11ea.Micro.Run.{Machine, host, bus, about_to, origin}
use ll.Kd11ea.Micro.Traps.{with_handler, entered, handler_of}

pub data Source : Type 0 where
  line_clock : Source
  receiver : Source
  transmitter : Source
  reader : Source
  punch : Source
  disk : Source

abbrev pub vector_of : Source → ℕ
vector_of line_clock = kw11_vec
vector_of receiver = rx_vec
vector_of transmitter = tx_vec
vector_of reader = ptr_vec
vector_of punch = ptp_vec
vector_of disk = rk_vec

abbrev pub level_of : Source → ℕ
level_of line_clock = kw11_pri
level_of receiver = 4
level_of transmitter = 4
level_of reader = 4
level_of punch = 4
level_of disk = 5

-- About to fetch a NOP at a priority, with the request of a device.
unfoldable pub requested : Source → ℕ → (ℕ → ℕ) → (ℕ → ℕ) → BusState Machine
unfolding about_to cpu_irq_set
requested d priority sp mem =
    let s = with_handler 0o240 (vector_of d) sp mem in
    record s {
      world = record s.world {
        cpu = record s.world.cpu {
          psw = priority * 2 ^ 5;
          intc = cpu_irq_set (vector_of d) (level_of d) s.world.cpu.intc;
        };
      };
    }

Granted : Source → (ℕ → ℕ) → (ℕ → ℕ) → ℕ → Type 0
Granted d sp mem priority =
    priority < level_of d
    → let s = requested d priority sp mem in
      let after = (kd11ea_step host bus s).1 in
      (entered after ≡ handler_of (vector_of d) (priority * 2 ^ 5) origin s.world.ram.mem)
      × (after.world.cpu.intc ≡ int_init)

Masked : Source → (ℕ → ℕ) → (ℕ → ℕ) → ℕ → Type 0
Masked d sp mem priority =
    level_of d ≤ priority
    → let s = requested d priority sp mem in
      let cpu = (kd11ea_step host bus s).1.world.cpu in
      (pc cpu ≡ origin + 2) × (cpu.intc ≡ s.world.cpu.intc)
