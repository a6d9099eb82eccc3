-- ===== src/Devices/Rl11/OnDisk.antt =====
-- Where the heads of the drives of the RL11 can be (`rl11_go`, `rl11_write` of
-- pdp11/rl11/rl11.c).
use ll.Prelude.{
  ℕ, ◌+◌, ◌/◌, ◌%◌, ◌^◌, ◌≤◌, ◌<◌, ◌≡◌, arith, ==_iff, Bool, true, false, drop, some, List, ◌==◌,
  if◌then◌else◌, bit_and, truthy, not,
}
use ll.Kd11ea.Int.{IntController}
use ll.Devices.Rk11.Transfer.{Memory, Transfer}
use ll.Devices.Rl11.{
  Rl11, put, rl11_set_done, rl11_set_err, max_cyl, da_cyl_rw, da_hd, da_sect, get_func, get_drive,
  rlcs_crdy,
}
use ll.Devices.Rl11.Branch.{branch, branch_option}
use ll.Devices.Rl11.Transfer.{
  seek, seek_to, get_status, read_header, transferred, off_disk, read_command, write_command,
  command, rl11_go, word_count, read_loop, write_loop, offset, start,
}
use ll.Devices.Rl11.Registers.{rl11_write, merged, loaded_cs}

-- The cylinder and the head of every drive are among those of its kind of disk.
unfoldable pub OnDisk : Rl11 → Type 0
OnDisk rl = (d : ℕ) → (rl.cyl d < max_cyl (rl.is_rl02 d)) × (rl.hd d ≤ 1)

put-all :
    (P : ℕ → ℕ → Type 0) (i x : ℕ) (f : ℕ → ℕ) (k : ℕ)
    → (k ≡ i → P k x)
    → P k (f k)
    → P k (put i x f k)
put-all P i x f k hx hf = branch (P k) (k == i) x (f k) (λ e. hx ((==_iff k i).0 e)) (λ _. hf)

-- Moving the heads of one drive.
moved :
    (drive c h : ℕ) (rl : Rl11)
    → OnDisk rl
    → c < max_cyl (rl.is_rl02 drive)
    → h ≤ 1
    → OnDisk (record rl { cyl = put drive c rl.cyl; hd = put drive h rl.hd })
unfolding OnDisk
moved drive c h rl on hc hh d = (
  put-all (λ k n. n < max_cyl (rl.is_rl02 k)) drive c rl.cyl d (λ e. rw e hc) (on d).0,
  put-all (λ k n. n ≤ 1) drive h rl.hd d (λ _. hh) (on d).1,
)

max_cyl-most : (rl02 : Bool) → (0 < max_cyl rl02) × (max_cyl rl02 ≤ 512)
max_cyl-most true = (omega arith, omega arith)
max_cyl-most false = (omega arith, omega arith)

seek_to_lt : (diff cyl maxcyl : ℕ) (out : Bool) → 0 < maxcyl → seek_to diff out cyl maxcyl < maxcyl
seek_to_lt diff cyl maxcyl true h = ground arith
seek_to_lt diff cyl maxcyl false h = ground arith

at_most_one : (b : Bool) → (if b then 1 else 0) ≤ 1
at_most_one true = omega arith
at_most_one false = omega arith

seek-OnDisk : (drive : ℕ) (rl : Rl11) → OnDisk rl → OnDisk (seek drive rl)
unfolding seek
seek-OnDisk drive rl on =
    let most : (0 < max_cyl (rl.is_rl02 drive)) × (max_cyl (rl.is_rl02 drive) ≤ 512) =
      max_cyl-most (rl.is_rl02 drive) in
    let new_cyl : ℕ =
      seek_to (rl.rlda / 2 ^ 7 % 2 ^ 9) (truthy (bit_and rl.rlda 0x0004)) (rl.cyl drive)
        (max_cyl (rl.is_rl02 drive)) in
    let less : new_cyl < max_cyl (rl.is_rl02 drive) = seek_to_lt _ _ _ _ most.0 in
    moved drive (new_cyl % 2 ^ 16) _ rl on (omega (arith, less, most.1)) (at_most_one _)

module _ {M : Type 0} (memory : Memory M) where
  transferred-OnDisk :
      (drive done : ℕ) (t : Transfer M) (rl : Rl11)
      → OnDisk rl
      → off_disk memory drive rl ≡ false
      → OnDisk (transferred memory drive done t rl)
  unfolding transferred rl11_set_err OnDisk
  transferred-OnDisk drive done t rl on h =
      let cyl : da_cyl_rw rl.rlda < max_cyl (rl.is_rl02 drive) = ground (arith, h) in
      let at : OnDisk (record rl {
        cyl = put drive (da_cyl_rw rl.rlda) rl.cyl;
        hd = put drive (da_hd rl.rlda) rl.hd;
      }) =
        moved drive _ _ rl on cyl (omega arith) in
      branch OnDisk (truthy ((rl.rlmp + done % 2 ^ 16) % 2 ^ 16)) _ _ (λ _. at) (λ _. at)

  read_command-OnDisk :
      (wchk : Bool) (drive : ℕ) (file : List ℕ) (rl : Rl11) (m : M)
      → OnDisk rl
      → OnDisk (read_command memory wchk drive file rl m).0
  unfolding read_command rl11_set_err OnDisk
  read_command-OnDisk wchk drive file rl m on =
      let wc : ℕ = word_count rl.rlmp (da_sect rl.rlda) in
      let r : ℕ × Transfer M =
        read_loop memory wc wchk 0 wc (drop (offset memory rl) file) (start memory rl m) in
      branch (λ (r : Rl11 × M). OnDisk r.0) (off_disk memory drive rl) _ _ (λ _. on)
        (λ h. transferred-OnDisk drive r.0 r.1 rl on h)

  write_command-OnDisk :
      (drive : ℕ) (file : List ℕ) (rl : Rl11) (m : M)
      → OnDisk rl
      → OnDisk (write_command memory drive file rl m).0
  unfolding write_command rl11_set_err OnDisk
  write_command-OnDisk drive file rl m on =
      let wc : ℕ = word_count rl.rlmp (da_sect rl.rlda) in
      let w : List ℕ × ℕ × Transfer M =
        write_loop memory wc 0 wc (offset memory rl) file (start memory rl m) in
      let P : Rl11 × M → Type 0 = λ r. OnDisk r.0 in
      branch P (off_disk memory drive rl) _ _ (λ _. on)
        (λ h.
          branch P (rl.read_only drive) _ _ (λ _. on)
            (λ _.
              transferred-OnDisk drive w.1 w.2 (record rl { disk = put drive (some w.0) rl.disk })
                on h))

  command-OnDisk :
      (func drive : ℕ) (rl : Rl11) (m : M) → OnDisk rl → OnDisk (command memory func drive rl m).0
  unfolding command get_status read_header rl11_set_err OnDisk
  command-OnDisk func drive rl m on =
      let P : Rl11 × M → Type 0 = λ r. OnDisk r.0 in
      branch P (func == 0) _ _ (λ _. on)
        (λ _. branch_option P (rl.disk drive) _ _ on (λ file.
          branch P (func == 2) _ _ (λ _. on)
            (λ _.
              branch P (func == 3) _ _ (λ _. seek-OnDisk drive rl on)
                (λ _.
                  branch P (func == 4) _ _ (λ _. on)
                    (λ _.
                      branch P (func == 5) _ _ (λ _. write_command-OnDisk drive file rl m on)
                        (λ _. read_command-OnDisk (func == 1) drive file rl m on))))))

  rl11_go-OnDisk :
      (rl : Rl11) (ic : IntController) (m : M) → OnDisk rl → OnDisk (rl11_go memory rl ic m).0
  unfolding rl11_go rl11_set_done OnDisk
  rl11_go-OnDisk rl ic m on = command-OnDisk (get_func rl.rlcs) (get_drive rl.rlcs) _ m on

  -- Whatever is written to whichever register, and whatever command that starts, if every drive had
  -- its heads at a cylinder of its kind of disk, 256 of an RL01 or 512 of an RL02, and at head 0 or
  -- 1, so it has after the write.
  pub rl11_write-OnDisk :
      (addr word : ℕ) (is_byte : Bool) (rl : Rl11) (ic : IntController) (m : M)
      → OnDisk rl
      → OnDisk (rl11_write memory addr word is_byte rl ic m).0
  unfolding rl11_write OnDisk
  rl11_write-OnDisk addr word is_byte rl ic m on =
      let P : Rl11 × IntController × M → Type 0 = λ r. OnDisk r.0 in
      let reg : ℕ = addr / 2 % 4 in
      let new : ℕ = merged addr word is_byte rl in
      let cs : ℕ = loaded_cs rl new in
      branch P (not rl.init_l) _ _ (λ _. on)
        (λ _.
          branch P (reg == 0) _ _
            (λ _.
              branch P (truthy (bit_and new rlcs_crdy)) _ _ (λ _. on)
                (λ _.
                  branch P (truthy (bit_and cs rlcs_crdy)) _ _
                    (λ _. rl11_go-OnDisk (record rl { rlcs = bit_and cs 0x037f }) ic m on)
                    (λ _. on)))
            (λ _.
              branch P (reg == 1) _ _ (λ _. on) (λ _. branch P (reg == 2) _ _ (λ _. on) (λ _. on))))
