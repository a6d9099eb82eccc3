-- ===== src/Devices/Rk11/Disk.antt =====
-- Places on the disk, and how a command ends.
use ll.Prelude.{
  ℕ, ◌+◌, ◌-◌, ◌*◌, ◌/◌, ◌%◌, ◌^◌, ◌≤◌, ◌<◌, ◌≡◌, bit_and, bit_or, bit_or-fields, bit_or-above,
  bit_and-shifted, bit_and-ones, arith,
}
use ll.Devices.Rk11.{next_da, da_to_sector, da_sect, da_cyl, da_drive, rk_numwd, rk_numsc, rk_numcy}

abbrev pub sector_after : ℕ → ℕ → ℕ
sector_after sector wc = sector + (wc + rk_numwd - 1) / rk_numwd

fields :
    (da s : ℕ)
    → s < 256 * 24
    → bit_or
        (bit_and da 0xe000)
        (bit_or (bit_or (s % 12) (s / 12 % 2 * 2 ^ 4)) (s / 24 * 2 ^ 5) % 2 ^ 16)
      ≡ da_drive da * 2 ^ 13 + (s / 24 * 2 ^ 5 + (s / 12 % 2 * 2 ^ 4 + s % 12))
fields da s h =
    let drive : bit_and da 0xe000 ≡ da_drive da * 2 ^ 13 =
      omega (arith, bit_and-shifted 13 da 7, bit_and-ones 3 (da / 2 ^ 13)) in
    let low : bit_or (s % 12) (s / 12 % 2 * 2 ^ 4) ≡ s / 12 % 2 * 2 ^ 4 + s % 12 =
      bit_or-above 4 (s % 12) (s / 12 % 2) (omega arith) in
    let whole : bit_or (s / 12 % 2 * 2 ^ 4 + s % 12) (s / 24 * 2 ^ 5)
        ≡ s / 24 * 2 ^ 5 + (s / 12 % 2 * 2 ^ 4 + s % 12) =
      bit_or-above 5 (s / 12 % 2 * 2 ^ 4 + s % 12) (s / 24) (omega arith) in
    let fits : (s / 24 * 2 ^ 5 + (s / 12 % 2 * 2 ^ 4 + s % 12)) % 2 ^ 16
        ≡ s / 24 * 2 ^ 5 + (s / 12 % 2 * 2 ^ 4 + s % 12) =
      omega arith in
    rw (drive, low, whole, fits)
      (bit_or-fields 13 (da_drive da) (s / 24 * 2 ^ 5 + (s / 12 % 2 * 2 ^ 4 + s % 12))
        (omega arith))

-- For a valid disk address and any word count, the address after the transfer names the sector
-- that follows the last one touched, on the same drive, and its sector field is below 12.
pub da_to_sector-next_da :
    (da wc : ℕ)
    → da_sect da < rk_numsc
    → da_cyl da < rk_numcy
    → wc ≤ 0x10000
    → let da' = next_da da (da_to_sector da) wc in
      (da_to_sector da' ≡ sector_after (da_to_sector da) wc)
      × (da_drive da' ≡ da_drive da)
      × (da_sect da' < rk_numsc)
da_to_sector-next_da da wc hs hc hw =
    let s : ℕ = sector_after (da_to_sector da) wc in
    let small : s < 256 * 24 = omega arith in
    rw (fields da s small) (omega arith, omega arith, omega arith)
