-- ===== src/Devices/Rk11/Reach.antt =====
-- The commands of the RK11 that pass the checks of `rk05_go` (pdp11/rk11/rk11.c).
use ll.Prelude.{
  ℕ, ◌/◌, ◌%◌, ◌<◌, ◌≡◌, ◌≢◌, ◌∙◌, arith, false, ◌&&◌, ◌||◌, some, bit_and, ◌==◌, leb, if_false,
}
use ll.Kd11ea.Int.{IntController}
use ll.Devices.Rk11.{Rk05, Drive, rk_numsc, rk_numcy, da_drive, da_sect, da_cyl}
use ll.Devices.Rk11.Transfer.{Memory, command, rk05_go}

-- The controller as a command finds it.
abbrev pub ready : Rk05 → Rk05
ready rk = record rk { rkcs = bit_and rk.rkcs 0x1f7f; rker = 0 }

leb-false : (a b : ℕ) → b < a → leb a b ≡ false
leb-false a b h = ground arith

module _ {M : Type 0} (memory : Memory M) where
  pub reaches :
      (fuel : ℕ) (rk : Rk05) (d : Drive) (ic : IntController) (m : M)
      → let f = rk.rkcs / 2 % 8 in
        f ≢ 0
        → d.read_only && (f == 1 || f == 7) ≡ false
        → rk.disk (da_drive rk.rkda) ≡ some d
        → da_sect rk.rkda < rk_numsc
        → da_cyl rk.rkda < rk_numcy
        → rk05_go memory fuel rk ic m ≡ command memory fuel f (ready rk) d ic m
  unfolding rk05_go
  reaches fuel rk d ic m reset free found sect cyl =
      let f : ℕ = rk.rkcs / 2 % 8 in
      rw found (
        if_false (f == 0) _ _ (ground (arith, reset))
        ∙ if_false (d.read_only && (f == 1 || f == 7)) _ _ free
        ∙ if_false (leb rk_numsc (da_sect rk.rkda)) _ _ (leb-false _ _ sect)
        ∙ if_false (leb rk_numcy (da_cyl rk.rkda)) _ _ (leb-false _ _ cyl))
