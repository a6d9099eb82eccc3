-- ===== src/Devices/Rk11/Ends.antt =====
-- How a command of the RK11 ends (`rk05_go` of pdp11/rk11/rk11.c).
use ll.Prelude.{◌≡◌, bit_and, true, Option, none, some, if◌then◌else◌, truthy}
use ll.Kd11ea.Int.{IntController}
use ll.Devices.{cpu_irq_set}
use ll.Devices.Rk11.{Rk05, rk_vec, rkcs_done, rkcs_ie}

-- The controller is ready again, and its interrupt was requested when it was enabled.
pub IsDone : {M : Type 0} → IntController → Rk05 × IntController × M → Type 0
IsDone ic (rk, ic', m) =
    (truthy (bit_and rk.rkcs rkcs_done) ≡ true)
    × (ic' ≡ (if truthy (bit_and rk.rkcs rkcs_ie) then cpu_irq_set rk_vec 5 ic else ic))

-- There is an end, and it is of that kind.
pub Ends : {M : Type 0} → IntController → Option (Rk05 × IntController × M) → Type 0
Ends ic none = ⊥
Ends ic (some r) = IsDone ic r
