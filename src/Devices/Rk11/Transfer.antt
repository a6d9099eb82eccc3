-- ===== src/Devices/Rk11/Transfer.antt =====
-- Transfers of the RK11 (`rk05_go` of pdp11/rk11/rk11.c). Every loop but that of the write check
-- runs on fuel that is the number of words left; the write check may never end, and is `none`
-- while it runs.
use ll.Prelude.{
  ℕ, zero, suc, ◌+◌, ◌-◌, ◌*◌, ◌/◌, ◌%◌, ◌^◌, bit_and, bit_or, Bool, true, false, ◌&&◌, ◌||◌,
  Option, none, some, List, [], ◌∷◌, ◌++◌, ◌==◌, leb, ltb, if◌then◌else◌, length, take, drop,
  replicate,
}
use ll.Kd11ea.Int.{IntController}
use ll.Devices.Rk11.{
  Rk05, Drive, rk05_update_err, rk05_set_done, word_count, next_da, da_to_sector, da_drive, da_sect,
  da_cyl, rk_numwd, rk_numsc, rk_numcy, rker_wce, rker_nxs, rker_nxc, rker_nxd, rker_nxm, rker_wlo,
  rker_ovr, rkcs_mex, rkcs_scp, rkcs_done,
}

-- What answers the controller's cycles: a word, or nothing, and whether a write is answered.
pub record Memory (M : Type 0) : Type 0 where
  pub dati : ℕ → M → Option ℕ × M
  pub dato : ℕ → ℕ → M → Bool × M

-- A transfer under way.
pub record Transfer (M : Type 0) : Type 0 where
  pub ma : ℕ
  pub errors : ℕ
  pub aborted : Bool
  pub mem : M

-- `fread` of at most `n` words.
abbrev pub words : ℕ → List ℕ → List ℕ
words zero bytes = []
words (suc n) [] = []
words (suc n) (a ∷ []) = []
words (suc n) (a ∷ b ∷ rest) = (a % 2 ^ 8 + b % 2 ^ 8 * 2 ^ 8) ∷ words n rest

-- The bytes of words, in the order in which `fwrite` puts them.
abbrev pub bytes_of : List ℕ → List ℕ
bytes_of [] = []
bytes_of (w ∷ ws) = w % 2 ^ 8 ∷ w / 2 ^ 8 % 2 ^ 8 ∷ bytes_of ws

-- The file with those bytes at `pos`.
abbrev pub overwrite : ℕ → List ℕ → List ℕ → List ℕ
overwrite pos bytes file =
    take pos (file ++ replicate (pos - length file) 0) ++ bytes ++ drop (pos + length bytes) file

-- Words of one buffer of the file.
abbrev pub chunk : ℕ → ℕ
chunk left = if ltb rk_numwd left then rk_numwd else left

module _ {M : Type 0} (memory : Memory M) where
  abbrev pub missing : M → Transfer M → Transfer M
  missing m t = record t { errors = bit_or t.errors rker_nxm; aborted = true; mem = m }

  abbrev pub stepped : M → Transfer M → Transfer M
  stepped m t = record t { ma = t.ma + 2; mem = m }

  -- A buffer of words to memory.
  unfoldable pub store_words : List ℕ → Transfer M → Transfer M
  store_words [] t = t
  store_words (w ∷ ws) t =
      let r = memory.dato (t.ma % 2 ^ 18) w t.mem in
      let rest = store_words ws (stepped r.1 t) in if r.0 then rest else missing r.1 t

  -- Words from memory to a buffer.
  unfoldable pub fetch_words : ℕ → Transfer M → List ℕ × Transfer M
  fetch_words zero t = ([], t)
  fetch_words (suc n) t =
      let r = memory.dati (t.ma % 2 ^ 18) t.mem in
      let rest = fetch_words n (stepped r.1 t) in
      elim r.0 [ none ↦ ([], missing r.1 t) | some w ↦ (w ∷ rest.0, rest.1) ]

  -- A buffer of words compared with memory.
  unfoldable pub compare_words : List ℕ → Transfer M → Transfer M
  compare_words [] t = t
  compare_words (w ∷ ws) t =
      let r = memory.dati (t.ma % 2 ^ 18) t.mem in
      elim r.0 [
        | none ↦ missing r.1 t
        | some word ↦ compare_words ws (
            stepped r.1
              (record t { errors = if word == w then t.errors else bit_or t.errors rker_wce }))
      ]

  -- Read, or read check: the file from its place on.
  unfoldable pub read_loop : ℕ → Bool → ℕ → List ℕ → Transfer M → Transfer M
  unfolding store_words
  read_loop zero to_memory left file t = t
  read_loop (suc fuel) to_memory left file t =
      let buf = words (chunk left) file in
      let got = length buf in
      let t' = if to_memory then store_words buf t else record t { ma = t.ma + got * 2 } in
      let rest = read_loop fuel to_memory (left - got) (drop (got * 2) file) t' in
      if left == 0
      then t
      else if got == 0
      then record t { errors = bit_or t.errors rker_ovr }
      else if t'.aborted
      then t'
      else rest

  -- Write: the file, and the place in it.
  unfoldable pub write_loop : ℕ → ℕ → ℕ → List ℕ → Transfer M → List ℕ × Transfer M
  unfolding fetch_words
  write_loop zero left pos file t = (file, t)
  write_loop (suc fuel) left pos file t =
      let n = chunk left in
      let r = fetch_words n t in
      let rest = write_loop fuel (left - n) (pos + n * 2) (overwrite pos (bytes_of r.0) file) r.1 in
      if left == 0 then (file, t) else if r.1.aborted then (file, r.1) else rest

  -- Write check. A `fread` that gives nothing leaves all as it was.
  unfoldable pub check_loop : ℕ → ℕ → List ℕ → Transfer M → Option (Transfer M)
  unfolding compare_words
  check_loop zero left file t = if left == 0 then some t else none
  check_loop (suc fuel) left file t =
      let buf = words (chunk left) file in
      let t' = compare_words buf t in
      let rest = check_loop fuel (left - length buf) (drop (length buf * 2) file) t' in
      if left == 0 then some t else if t'.aborted then some t' else rest

  -- The end of every command that got as far as a drive (`xfer_done`).
  unfoldable pub finish : Rk05 → ℕ → ℕ → Transfer M → IntController → Rk05 × IntController × M
  unfolding rk05_update_err rk05_set_done
  finish rk wc sector t ic =
      let done =
        rk05_set_done
          (rk05_update_err (record rk {
            rker = bit_or rk.rker t.errors;
            rkwc = (rk.rkwc + wc % 2 ^ 16) % 2 ^ 16;
            rkba = t.ma % 2 ^ 16;
            rkcs = bit_or (bit_and rk.rkcs 0xffcf) (bit_and (t.ma / 2 ^ 12) rkcs_mex);
            rkda = next_da rk.rkda sector wc;
          }))
          ic in
      (done.0, done.1, t.mem)

  -- The end of a command that the controller refuses.
  unfoldable pub refuse : ℕ → Rk05 → IntController → Rk05 × IntController
  unfolding rk05_update_err rk05_set_done
  refuse error rk ic = rk05_set_done (rk05_update_err (record rk { rker = error })) ic

  abbrev pub answer : M → Rk05 × IntController → Option (Rk05 × IntController × M)
  answer m r = some (r.0, r.1, m)

  abbrev pub with_bytes : Rk05 → ℕ → Drive → List ℕ → Rk05
  with_bytes rk drive d bytes = record rk {
    disk = λ i. if i == drive then some (record d { bytes = bytes }) else rk.disk i;
  }

  -- The commands that reach the drive.
  unfoldable pub command :
      ℕ → ℕ → Rk05 → Drive → IntController → M → Option (Rk05 × IntController × M)
  unfolding read_loop write_loop check_loop finish
  command fuel func rk d ic m =
      let drive = da_drive rk.rkda in
      let wc = word_count rk.rkwc in
      let sector = da_to_sector rk.rkda in
      let pos = sector * rk_numwd * 2 in
      let t : Transfer M = record {
        ma = bit_or (bit_and rk.rkcs rkcs_mex * 2 ^ 12) rk.rkba;
        errors = 0;
        aborted = false;
        mem = m;
      } in
      if func == 2 || func == 5
      then some (finish rk wc sector (read_loop wc (func == 2) wc (drop pos d.bytes) t) ic)
      else if func == 1
      then (let w = write_loop wc wc pos d.bytes t in
          some (finish (with_bytes rk drive d w.0) wc sector w.1 ic))
      else if func == 3
      then elim (check_loop fuel wc (drop pos d.bytes) t) [
        | none ↦ none
        | some t' ↦ some (finish rk wc sector t' ic)
      ]
      else if func == 4 || func == 6
      then some (finish (record rk { rkcs = bit_or rk.rkcs rkcs_scp }) wc sector t ic)
      else some (finish rk wc sector t ic)

  unfoldable pub rk05_go : ℕ → Rk05 → IntController → M → Option (Rk05 × IntController × M)
  unfolding command refuse
  rk05_go fuel rk ic m =
      let func = rk.rkcs / 2 % 8 in
      let ready = record rk { rkcs = bit_and rk.rkcs 0x1f7f; rker = 0 } in
      if func == 0
      then some (record rk { rkcs = rkcs_done; rker = 0; rkda = 0; rkba = 0; rkwc = 0 }, ic, m)
      else elim (rk.disk (da_drive rk.rkda)) [
        | none ↦ answer m (refuse rker_nxd ready ic)
        | some d ↦
            if d.read_only && (func == 1 || func == 7)
            then answer m (refuse rker_wlo ready ic)
            else if leb rk_numsc (da_sect rk.rkda)
            then answer m (refuse rker_nxs ready ic)
            else if leb rk_numcy (da_cyl rk.rkda)
            then answer m (refuse rker_nxc ready ic)
            else command fuel func ready d ic m
      ]
