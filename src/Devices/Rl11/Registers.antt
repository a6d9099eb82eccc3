-- ===== src/Devices/Rl11/Registers.antt =====
-- The registers of the RL11 on the bus, and its drives (pdp11/rl11/rl11.c).
use ll.Prelude.{
  ℕ, ◌*◌, ◌/◌, ◌%◌, ◌^◌, bit_and, bit_or, Bool, true, false, not, Option, none, some, List, ◌==◌,
  leb, ltb, if◌then◌else◌, truthy, length,
}
use ll.Kd11ea.Int.{IntController}
use ll.Devices.Rk11.Transfer.{Memory}
use ll.Devices.Rl11.{
  Rl11, put, get_drive, rlcs_drdy, rlcs_crdy, rlcs_err, rl01_size, rl_numdr, rlds_vck,
}
use ll.Devices.Rl11.Transfer.{rl11_go}

-- RLCS as a read of it finds it: the selected drive, and the summary of the errors.
abbrev pub read_cs : Rl11 → ℕ
read_cs rl =
    let cs : ℕ = elim (rl.disk (get_drive rl.rlcs)) [
      | none ↦ bit_and rl.rlcs 0xfffe
      | some _ ↦ bit_or rl.rlcs rlcs_drdy
    ] in
    if truthy (bit_and cs 0x7c00) then bit_or cs rlcs_err else bit_and cs 0x7fff

unfoldable pub rl11_read : ℕ → Rl11 → ℕ × Rl11
rl11_read addr rl =
    let reg = addr / 2 % 4 in
    if reg == 0
    then (read_cs rl, record rl { rlcs = read_cs rl })
    else if reg == 1
    then (rl.rlba, rl)
    else if reg == 2
    then (rl.rlda, rl)
    else (rl.rlmp, rl)

abbrev pub current : ℕ → Rl11 → ℕ
current reg rl =
    if reg == 0
    then rl.rlcs
    else if reg == 1
    then rl.rlba
    else if reg == 2
    then rl.rlda
    else rl.rlmp

-- The word that a write of a byte makes with the register.
abbrev pub merged : ℕ → ℕ → Bool → Rl11 → ℕ
merged addr value is_byte rl =
    let cur = current (addr / 2 % 4) rl in
    if is_byte
    then (if truthy (addr % 2)
        then bit_or (bit_and cur 0x00ff) (value % 2 ^ 8 * 2 ^ 8)
        else bit_or (bit_and cur 0xff00) (value % 2 ^ 8))
    else value

-- RLCS after a write: the status bits are kept.
abbrev pub loaded_cs : Rl11 → ℕ → ℕ
loaded_cs rl word = bit_or (bit_and rl.rlcs 0xfc81) (bit_and word 0x037e)

unfoldable pub rl11_write :
    {M : Type 0} → Memory M → ℕ → ℕ → Bool → Rl11 → IntController → M → Rl11 × IntController × M
unfolding rl11_go
rl11_write memory addr value is_byte rl ic m =
    let reg = addr / 2 % 4 in
    let word = merged addr value is_byte rl in
    let cs = loaded_cs rl word in
    let go = rl11_go memory (record rl { rlcs = bit_and cs 0x037f }) ic m in
    if not rl.init_l
    then (rl, ic, m)
    else if reg == 0
    then (if truthy (bit_and word rlcs_crdy)
        then (record rl { rlcs = cs }, ic, m)
        else if truthy (bit_and cs rlcs_crdy)
        then go
        else (record rl { rlcs = cs }, ic, m))
    else if reg == 1
    then (record rl { rlba = bit_and word 0xfffe }, ic, m)
    else if reg == 2
    then (record rl { rlda = word }, ic, m)
    else (record rl { rlmp = word }, ic, m)

-- Opening a file for update or, failing that, for reading: what each attempt finds.
unfoldable pub rl11_attach : ℕ → Option (List ℕ) → Option (List ℕ) → Bool → Rl11 → Bool × Rl11
rl11_attach drive update reading read_only rl =
    if leb rl_numdr drive then (false, rl) else elim (if read_only then none else update) [
      | some bytes ↦ (true, detect bytes false)
      | none ↦ elim reading [
        | none ↦ (false, record rl { disk = put drive none rl.disk })
        | some bytes ↦ (true, detect bytes true)
      ]
    ]
  where
    detect : List ℕ → Bool → Rl11
    detect bytes locked = record rl {
      disk = put drive (some bytes) rl.disk;
      read_only = put drive locked rl.read_only;
      is_rl02 = put drive (ltb rl01_size (length bytes)) rl.is_rl02;
      stat = put drive rlds_vck rl.stat;
    }
