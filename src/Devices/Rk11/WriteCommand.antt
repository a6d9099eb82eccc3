-- ===== src/Devices/Rk11/WriteCommand.antt =====
-- The write of the RK11 as a whole (`rk05_go` of pdp11/rk11/rk11.c).
use ll.Prelude.{
  ℕ, ◌*◌, ◌/◌, ◌%◌, ◌<◌, ◌≡◌, ◌≢◌, refl, ap, ◌∙◌, arith, Bool, false, ◌&&◌, ◌||◌, some, List, ◌==◌,
}
use ll.Kd11ea.Int.{IntController}
use ll.Devices.Rk11.{
  Rk05, Drive, rk_numwd, rk_numsc, rk_numcy, da_drive, da_sect, da_cyl, da_to_sector, word_count,
}
use ll.Devices.Rk11.Reach.{ready, reaches}
use ll.Devices.Rk11.ReadCommand.{start}
use ll.Devices.Rk11.Writing.{written, write_loop-once}
use ll.Devices.Rk11.Transfer.{Memory, Transfer, fetch_words, with_bytes, finish, command, rk05_go}

may_write : (f : ℕ) (b : Bool) → b ≡ false → b && (f == 1 || f == 7) ≡ false
may_write f b h = ground (arith, h)

word_count-positive : (wc : ℕ) → word_count wc ≢ 0
word_count-positive wc = ground arith

module _ {M : Type 0} (memory : Memory M) where
  -- All the words of a write, from memory.
  abbrev pub fetched : Rk05 → M → List ℕ × Transfer M
  fetched rk m = fetch_words memory (word_count rk.rkwc) (start rk m)

  -- The file of the drive with the words at the sector, and the end of the command.
  abbrev pub after_write : Rk05 → Drive → IntController → M → Rk05 × IntController × M
  after_write rk d ic m =
      let sector = da_to_sector rk.rkda in
      let w = written (sector * rk_numwd * 2) d.bytes (fetched rk m) in
      finish memory (with_bytes memory rk (da_drive rk.rkda) d w.0) (word_count rk.rkwc) sector w.1
        ic

  command-write :
      (fuel func : ℕ) (rk : Rk05) (d : Drive) (ic : IntController) (m : M)
      → func ≡ 1
      → (fetched rk m).1.aborted ≡ false
      → command memory fuel func rk d ic m ≡ some (after_write rk d ic m)
  unfolding command
  command-write fuel func rk d ic m is up =
      let wc : ℕ = word_count rk.rkwc in
      let sector : ℕ = da_to_sector rk.rkda in
      rw is (
        ap
          (λ (w : List ℕ × Transfer M).
            some (finish memory (with_bytes memory rk (da_drive rk.rkda) d w.0) wc sector w.1 ic))
          (write_loop-once memory wc wc (sector * rk_numwd * 2) d.bytes (start rk m)
            (word_count-positive rk.rkwc) (omega arith) refl up))

  -- A write of a valid sector of a drive that is open for writing, where memory answers all the
  -- words, ends with the file of the drive overwritten once by all the words, low byte first, from
  -- the start of the sector on, and with the registers as `finish` leaves them.
  pub rk05_go-write :
      (fuel : ℕ) (rk : Rk05) (d : Drive) (ic : IntController) (m : M)
      → rk.rkcs / 2 % 8 ≡ 1
      → rk.disk (da_drive rk.rkda) ≡ some d
      → d.read_only ≡ false
      → da_sect rk.rkda < rk_numsc
      → da_cyl rk.rkda < rk_numcy
      → (fetched (ready rk) m).1.aborted ≡ false
      → rk05_go memory fuel rk ic m ≡ some (after_write (ready rk) d ic m)
  rk05_go-write fuel rk d ic m func found writable sect cyl up =
      reaches memory fuel rk d ic m (ground (arith, func))
        (may_write (rk.rkcs / 2 % 8) d.read_only writable) found sect cyl
      ∙ command-write fuel (rk.rkcs / 2 % 8) (ready rk) d ic m func up
