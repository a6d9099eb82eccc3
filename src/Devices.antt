-- ===== src/Devices.antt =====
-- The peripherals, wired to the processor's interrupt controller as `machine_init` does it
-- (pdp11/machine.c): `cpu_irq_set` and `cpu_irq_clr` are the callbacks of every one.
pub mod Quiet
pub mod Kw11
pub mod Dl11
pub mod Pc11
pub mod Rk11
pub mod Rl11
mod DiskTests
mod Rl11Tests
mod Tests
use ll.Prelude.{ℕ, Bool}
use ll.Kd11ea.Int.{IntController, int_request, int_cancel}

-- The device gets no answer: with the queue full its request is lost.
unfoldable pub cpu_irq_set : ℕ → ℕ → IntController → IntController
cpu_irq_set vector priority ic = (int_request ic vector priority).1

unfoldable pub cpu_irq_clr : ℕ → IntController → IntController
cpu_irq_clr vector ic = int_cancel ic vector

-- What a register read gives, with the device and the requests after it.
pub record Answer (D : Type 0) : Type 0 where
  pub ok : Bool
  pub word : ℕ
  pub device : D
  pub intc : IntController
