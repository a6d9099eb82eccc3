-- ===== src/Devices/Rk11/ReadCommand.antt =====
-- The read of the RK11 as a whole (`rk05_go` of pdp11/rk11/rk11.c).
use ll.Prelude.{
  ℕ, ◌*◌, ◌/◌, ◌%◌, ◌^◌, ◌<◌, ◌≡◌, refl, ap, ◌∙◌, arith, Bool, true, false, ◌&&◌, ◌||◌, some,
  bit_and, bit_or, ◌==◌, drop,
}
use ll.Kd11ea.Int.{IntController}
use ll.Devices.Rk11.{
  Rk05, Drive, rk_numwd, rk_numsc, rk_numcy, rkcs_mex, da_drive, da_sect, da_cyl, da_to_sector,
  word_count,
}
use ll.Devices.Rk11.Reach.{ready, reaches}
use ll.Devices.Rk11.Reading.{read_once, read_loop-once}
use ll.Devices.Rk11.Transfer.{Memory, Transfer, finish, command, rk05_go}

not_write : (f : ℕ) (b : Bool) → f ≡ 2 → b && (f == 1 || f == 7) ≡ false
not_write f true h = ground (arith, h)
not_write f false h = refl

-- A transfer that is about to start.
abbrev pub start : {M : Type 0} → Rk05 → M → Transfer M
start rk m = record {
  ma = bit_or (bit_and rk.rkcs rkcs_mex * 2 ^ 12) rk.rkba;
  errors = 0;
  aborted = false;
  mem = m;
}

module _ {M : Type 0} (memory : Memory M) where
  command-read :
      (fuel func : ℕ) (rk : Rk05) (d : Drive) (ic : IntController) (m : M)
      → func ≡ 2
      → let sector = da_to_sector rk.rkda in
        let wc = word_count rk.rkwc in
        command memory fuel func rk d ic m
        ≡ some (
            finish memory rk wc sector
              (read_once memory wc (drop (sector * rk_numwd * 2) d.bytes) (start rk m))
              ic)
  unfolding command
  command-read fuel func rk d ic m is =
      let sector : ℕ = da_to_sector rk.rkda in
      let wc : ℕ = word_count rk.rkwc in
      rw is (
        ap (λ t. some (finish memory rk wc sector t ic))
          (read_loop-once memory wc wc (drop (sector * rk_numwd * 2) d.bytes) (start rk m)
            (omega arith) refl))

  -- A read of a valid sector of a drive that has a file ends, and moves the words of the file from
  -- the start of the sector on to memory in one pass, `read_once`, with the registers as `finish`
  -- leaves them.
  pub rk05_go-read :
      (fuel : ℕ) (rk : Rk05) (d : Drive) (ic : IntController) (m : M)
      → rk.rkcs / 2 % 8 ≡ 2
      → rk.disk (da_drive rk.rkda) ≡ some d
      → da_sect rk.rkda < rk_numsc
      → da_cyl rk.rkda < rk_numcy
      → let sector = da_to_sector rk.rkda in
        let wc = word_count rk.rkwc in
        rk05_go memory fuel rk ic m
        ≡ some (
            finish memory
              (ready rk)
              wc
              sector
              (read_once memory wc (drop (sector * rk_numwd * 2) d.bytes) (start (ready rk) m))
              ic)
  rk05_go-read fuel rk d ic m func found sect cyl =
      reaches memory fuel rk d ic m (ground (arith, func))
        (not_write (rk.rkcs / 2 % 8) d.read_only func) found sect cyl
      ∙ command-read fuel (rk.rkcs / 2 % 8) (ready rk) d ic m func
