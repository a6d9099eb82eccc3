-- ===== src/Devices/Rl11/Transfer.antt =====
-- The commands of the RL11 (`rl11_go` of pdp11/rl11/rl11.c). The loops run on fuel that is the
-- number of words left: a round that goes on moves at least one.
use ll.Prelude.{
  ℕ, zero, suc, ◌+◌, ◌-◌, ◌*◌, ◌/◌, ◌%◌, ◌^◌, bit_and, bit_or, Bool, true, false, ◌||◌, none, some,
  List, ◌==◌, leb, ltb, if◌then◌else◌, length, drop, truthy, [], ◌∷◌,
}
use ll.Kd11ea.Int.{IntController}
use ll.Devices.Rk11.Transfer.{Memory, Transfer, words, bytes_of, overwrite, stepped}
use ll.Devices.Rl11.{
  Rl11, put, rl11_set_done, rl11_set_err, error_bits, get_func, get_drive, get_mex, da_sect, da_hd,
  da_cyl_rw, max_cyl, chs_to_offset, rl_numwd, rl_numsc, rlcs_drdy, rlcs_incmp, rlcs_crc, rlcs_dlt,
  rlcs_nxm, rlcs_dre, rlds_lock, rlds_bho, rlds_hdo, rlds_hd, rlds_rl02, rlds_dse, rlds_wge,
  rlds_wlk, rlds_err,
}

-- Words of one buffer.
abbrev pub chunk : ℕ → ℕ
chunk left = if ltb rl_numwd left then rl_numwd else left

-- The word count, of which 0 stands for the greatest, cut at the end of the track.
abbrev pub word_count : ℕ → ℕ → ℕ
word_count rlmp sect =
    let wc = (0x10000 - rlmp) % 2 ^ 16 in
    let most = (rl_numsc - sect) * rl_numwd in
    let whole = if wc == 0 then 0x10000 else wc in if ltb most whole then most else whole

unfoldable pub get_status : ℕ → Rl11 → Rl11
get_status drive rl =
    let stat =
      if truthy (bit_and rl.rlda 0x0008)
      then put drive (bit_and (rl.stat drive) 0x20ff) rl.stat
      else rl.stat in
    let heads = bit_or (bit_or rlds_lock rlds_bho) rlds_hdo in
    let kind = if rl.is_rl02 drive then bit_or heads rlds_rl02 else heads in
    let locked = if rl.read_only drive then bit_or kind rlds_wlk else kind in
    let head = if truthy (rl.hd drive) then bit_or locked rlds_hd else locked in
    record rl {
      stat = stat;
      rlmp = bit_or head (bit_and (stat drive) rlds_err);
      rlcs = bit_or rl.rlcs rlcs_drdy;
    }

-- The cylinder after a seek, which stops at either end of the disk.
abbrev pub seek_to : ℕ → Bool → ℕ → ℕ → ℕ
seek_to diff out cyl maxcyl =
    let new_cyl = if out then cyl + diff else cyl - diff in
    if leb maxcyl new_cyl then maxcyl - 1 else new_cyl

unfoldable pub seek : ℕ → Rl11 → Rl11
seek drive rl =
    let new_cyl =
      seek_to (rl.rlda / 2 ^ 7 % 2 ^ 9) (truthy (bit_and rl.rlda 0x0004)) (rl.cyl drive)
        (max_cyl (rl.is_rl02 drive)) in
    record rl {
      cyl = put drive (new_cyl % 2 ^ 16) rl.cyl;
      hd = put drive (if truthy (bit_and rl.rlda 0x0010) then 1 else 0) rl.hd;
    }

unfoldable pub read_header : ℕ → Rl11 → Rl11
read_header drive rl = record rl {
  rlmp = bit_or (rl.cyl drive * 2 ^ 7) (rl.hd drive * 2 ^ 6) % 2 ^ 16;
}

module _ {M : Type 0} (memory : Memory M) where
  abbrev pub failed : ℕ → M → Transfer M → Transfer M
  failed bits m t = record t { errors = bit_or t.errors (error_bits bits); aborted = true; mem = m }

  -- A buffer of words to memory.
  unfoldable pub store_words : List ℕ → Transfer M → Transfer M
  store_words [] t = t
  store_words (w ∷ ws) t =
      let r = memory.dato (t.ma % 2 ^ 18) w t.mem in
      let rest = store_words ws (stepped memory r.1 t) in
      if r.0 then rest else failed rlcs_nxm r.1 t

  -- A buffer of words compared with memory, up to the first that differs.
  unfoldable pub compare_words : List ℕ → Transfer M → Transfer M
  compare_words [] t = t
  compare_words (w ∷ ws) t =
      let r = memory.dati (t.ma % 2 ^ 18) t.mem in
      let rest = compare_words ws (stepped memory r.1 t) in
      elim r.0 [
        | none ↦ failed rlcs_nxm r.1 t
        | some word ↦ if w == word then rest else failed rlcs_crc r.1 t
      ]

  -- Words from memory to a buffer.
  unfoldable pub fetch_words : ℕ → Transfer M → List ℕ × Transfer M
  fetch_words zero t = ([], t)
  fetch_words (suc n) t =
      let r = memory.dati (t.ma % 2 ^ 18) t.mem in
      let rest = fetch_words n (stepped memory r.1 t) in
      elim r.0 [ none ↦ ([], failed rlcs_nxm r.1 t) | some w ↦ (w ∷ rest.0, rest.1) ]

  -- What a buffer that was read is for.
  unfoldable pub use_words : Bool → List ℕ → Transfer M → Transfer M
  unfolding store_words compare_words
  use_words wchk ws t = if wchk then compare_words ws t else store_words ws t

  -- Read and write check: the words of whole buffers, and the transfer after them.
  unfoldable pub read_loop : ℕ → Bool → ℕ → ℕ → List ℕ → Transfer M → ℕ × Transfer M
  unfolding use_words
  read_loop zero wchk done left file t = (done, t)
  read_loop (suc fuel) wchk done left file t =
      let buf = words (chunk left) file in
      let got = length buf in
      let t' = use_words wchk buf t in
      let rest = read_loop fuel wchk (done + got) (left - got) (drop (got * 2) file) t' in
      if left == 0
      then (done, t)
      else if got == 0
      then (done, t)
      else if t'.aborted
      then (done, t')
      else rest

  -- Write: the file as well.
  unfoldable pub write_loop : ℕ → ℕ → ℕ → ℕ → List ℕ → Transfer M → List ℕ × ℕ × Transfer M
  unfolding fetch_words
  write_loop zero done left pos file t = (file, done, t)
  write_loop (suc fuel) done left pos file t =
      let n = chunk left in
      let r = fetch_words n t in
      let rest =
        write_loop fuel (done + n) (left - n) (pos + n * 2) (overwrite pos (bytes_of r.0) file)
          r.1 in
      if left == 0 then (file, done, t) else if r.1.aborted then (file, done, r.1) else rest

  abbrev pub start : Rl11 → M → Transfer M
  start rl m = record {
    ma = bit_or (get_mex rl.rlcs * 2 ^ 16) rl.rlba;
    errors = 0;
    aborted = false;
    mem = m;
  }

  -- The registers after a transfer (`rd_xfer_done`, `wr_xfer_done`).
  unfoldable pub transferred : ℕ → ℕ → Transfer M → Rl11 → Rl11
  unfolding rl11_set_err
  transferred drive done t rl =
      let cyl = da_cyl_rw rl.rlda in
      let hd = da_hd rl.rlda in
      let sect = da_sect rl.rlda + done / rl_numwd in
      let rlmp = (rl.rlmp + done % 2 ^ 16) % 2 ^ 16 in
      let counted : Rl11 = record rl {
        rlmp = rlmp;
        rlba = t.ma % 2 ^ 16;
        rlcs = bit_or (bit_and (bit_or rl.rlcs t.errors) 0xffcf) (t.ma / 2 ^ 16 % 4 * 2 ^ 4);
        rlda = bit_or (bit_or (cyl * 2 ^ 7) (hd * 2 ^ 6)) (sect % 2 ^ 6) % 2 ^ 16;
        cyl = put drive cyl rl.cyl;
        hd = put drive hd rl.hd;
      } in
      if truthy rlmp then rl11_set_err (bit_or rlcs_incmp rlcs_dlt) counted else counted

  abbrev pub off_disk : ℕ → Rl11 → Bool
  off_disk drive rl =
      leb rl_numsc (da_sect rl.rlda) || leb (max_cyl (rl.is_rl02 drive)) (da_cyl_rw rl.rlda)

  -- Where the disk address of a transfer is in the file.
  abbrev pub offset : Rl11 → ℕ
  offset rl = chs_to_offset (da_cyl_rw rl.rlda) (da_hd rl.rlda) (da_sect rl.rlda)

  unfoldable pub read_command : Bool → ℕ → List ℕ → Rl11 → M → Rl11 × M
  unfolding read_loop transferred rl11_set_err
  read_command wchk drive file rl m =
      let wc = word_count rl.rlmp (da_sect rl.rlda) in
      let r = read_loop wc wchk 0 wc (drop (offset rl) file) (start rl m) in
      if off_disk drive rl
      then (rl11_set_err (bit_or rlcs_incmp rlcs_dre) rl, m)
      else (transferred drive r.0 r.1 rl, r.1.mem)

  unfoldable pub write_command : ℕ → List ℕ → Rl11 → M → Rl11 × M
  unfolding write_loop transferred rl11_set_err
  write_command drive file rl m =
      let wc = word_count rl.rlmp (da_sect rl.rlda) in
      let w = write_loop wc 0 wc (offset rl) file (start rl m) in
      if off_disk drive rl
      then (rl11_set_err (bit_or rlcs_incmp rlcs_dre) rl, m)
      else if rl.read_only drive
      then (
        rl11_set_err rlcs_dre
            (record rl { stat = put drive (bit_or (rl.stat drive) rlds_wge) rl.stat }),
        m,
      )
      else (transferred drive w.1 w.2 (record rl { disk = put drive (some w.0) rl.disk }), w.2.mem)

  -- The commands, up to the point where the controller is ready again. All eight functions are
  -- named: the last case is that of a read, with or without headers, or of a write check.
  unfoldable pub command : ℕ → ℕ → Rl11 → M → Rl11 × M
  unfolding rl11_set_err get_status seek read_header read_command write_command
  command func drive rl m = if func == 0 then (rl, m) else elim (rl.disk drive) [
    | none ↦ (
      record (rl11_set_err (bit_or rlcs_incmp rlcs_dre) rl) {
        stat = put drive (bit_or (rl.stat drive) rlds_dse) rl.stat;
      },
      m,
    )
    | some file ↦
        if func == 2
        then (get_status drive rl, m)
        else if func == 3
        then (seek drive rl, m)
        else if func == 4
        then (read_header drive rl, m)
        else if func == 5
        then write_command drive file rl m
        else read_command (func == 1) drive file rl m
  ]

  unfoldable pub rl11_go : Rl11 → IntController → M → Rl11 × IntController × M
  unfolding command rl11_set_done
  rl11_go rl ic m =
      let r =
        command (get_func rl.rlcs) (get_drive rl.rlcs) (record rl { rlcs = bit_and rl.rlcs 0x037f })
          m in
      let d = rl11_set_done r.0 ic in (d.0, d.1, r.1)
