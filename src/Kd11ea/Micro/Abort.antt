-- ===== src/Kd11ea/Micro/Abort.antt =====
-- A transfer that is aborted (`kd11ea_ustep` of pdp11/kd11ea/kd11ea.c).
use ll.Prelude.{◌≡◌}
use ll.Kd11ea.Micro.{Cpu}
use ll.Kd11ea.Micro.Wires.{Wires}

-- The registers that the micro-word could have loaded.
pub record Kept (x y : Cpu) : Type 0 where
  pub sp : x.sp ≡ y.sp
  pub psw : x.psw ≡ y.psw
  pub count : x.count ≡ y.count
  pub stov : x.stov ≡ y.stov
  pub ir_valid : x.ir_valid ≡ y.ir_valid
  pub mmu : x.mmu ≡ y.mmu
