-- ===== src/Devices/Rk11/Registers.antt =====
-- The registers of the RK11 on the bus, and its drives (pdp11/rk11/rk11.c).
use ll.Prelude.{
  ℕ, ◌*◌, ◌/◌, ◌%◌, ◌^◌, bit_and, bit_or, Bool, true, false, not, ◌&&◌, Option, none, some, List,
  ◌==◌, leb, if◌then◌else◌, truthy,
}
use ll.Kd11ea.Int.{IntController}
use ll.Devices.Rk11.{Rk05, Drive, rk05_update_err, da_drive, rkcs_go, rkcs_done}
use ll.Devices.Rk11.Transfer.{Memory, rk05_go}

abbrev pub status : Rk05 → ℕ
status rk =
    let drv = da_drive rk.rkda in
    bit_or (bit_or (bit_or 0x0800 0x0100) (drv * 2 ^ 13)) (elim (rk.disk drv) [
      | none ↦ 0
      | some d ↦ bit_or (bit_or 0x0080 0x0040) (if d.read_only then 0x0020 else 0)
    ])

unfoldable pub rk05_read : ℕ → Rk05 → ℕ × Rk05
unfolding rk05_update_err
rk05_read addr rk =
    let reg = addr / 2 % 8 in
    if reg == 0
    then (status rk, record rk { rkds = status rk })
    else if reg == 1
    then (rk.rker, rk)
    else if reg == 2
    then ((rk05_update_err rk).rkcs, rk05_update_err rk)
    else if reg == 3
    then (rk.rkwc, rk)
    else if reg == 4
    then (rk.rkba, rk)
    else if reg == 5
    then (rk.rkda, rk)
    else (0, rk)

-- A write to RKCS keeps DONE and the results, and starts the command that GO asks for.
abbrev pub loaded_cs : Rk05 → ℕ → ℕ
loaded_cs rk word = bit_or (bit_and rk.rkcs 0xe080) (bit_and word 0x1f7e)

unfoldable pub rk05_write :
    {M : Type 0}
    → Memory M
    → ℕ
    → ℕ
    → ℕ
    → Rk05
    → IntController
    → M
    → Option (Rk05 × IntController × M)
unfolding rk05_go
rk05_write memory fuel addr word rk ic m =
    let reg = addr / 2 % 8 in
    let cs = loaded_cs rk word in
    if not rk.init_l
    then some (rk, ic, m)
    else if reg == 2
    then (if truthy (bit_and word rkcs_go) && truthy (bit_and cs rkcs_done)
        then rk05_go memory fuel (record rk { rkcs = bit_and cs 0xff7f }) ic m
        else some (record rk { rkcs = cs }, ic, m))
    else if reg == 3
    then some (record rk { rkwc = word }, ic, m)
    else if reg == 4
    then some (record rk { rkba = word }, ic, m)
    else if reg == 5
    then some (record rk { rkda = word }, ic, m)
    else some (rk, ic, m)

-- Opening a file for update or, failing that, for reading: what each attempt finds.
unfoldable pub rk05_attach : ℕ → Option (List ℕ) → Option (List ℕ) → Bool → Rk05 → Bool × Rk05
rk05_attach drive update reading read_only rk =
    if leb 8 drive then (false, rk) else elim (if read_only then none else update) [
      | some bytes ↦ (true, put (some (record { bytes = bytes; read_only = false })))
      | none ↦ elim reading [
        | none ↦ (false, put none)
        | some bytes ↦ (true, put (some (record { bytes = bytes; read_only = true })))
      ]
    ]
  where
    put : Option Drive → Rk05
    put d = record rk { disk = λ i. if i == drive then d else rk.disk i }
