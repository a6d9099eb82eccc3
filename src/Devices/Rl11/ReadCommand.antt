-- ===== src/Devices/Rl11/ReadCommand.antt =====
-- The read and the write check of the RL11 as a whole (`rl11_go` of pdp11/rl11/rl11.c).
use ll.Prelude.{
  ℕ, ◌+◌, ◌*◌, ◌≤◌, ◌≡◌, ap, ◌∙◌, arith, Bool, false, some, List, ◌==◌, drop, if_false, ◌⊎◌,
  bit_and,
}
use ll.Kd11ea.Int.{IntController}
use ll.Devices.Rk11.Transfer.{Memory, Transfer, words}
use ll.Devices.Rl11.{Rl11, rl11_set_done, get_func, get_drive, da_sect}
use ll.Devices.Rl11.Transfer.{word_count, use_words, start, offset, read_command, command, rl11_go}

module _ {M : Type 0} (memory : Memory M) where
  -- The words of the file that a command is about.
  abbrev pub named : Rl11 → List ℕ → List ℕ
  named rl file = words (word_count rl.rlmp (da_sect rl.rlda)) (drop (offset memory rl) file)

  -- The transfer of those words in one pass.
  abbrev pub once : Bool → Rl11 → List ℕ → M → Transfer M
  once wchk rl file m = use_words memory wchk (named rl file) (start memory rl m)

  -- The controller that starts a command.
  abbrev pub ready : Rl11 → Rl11
  ready rl = record rl { rlcs = bit_and rl.rlcs 0x037f }

  abbrev pub ended : Rl11 × M → IntController → Rl11 × IntController × M
  ended r ic = let d = rl11_set_done r.0 ic in (d.0, d.1, r.1)

  pub rl11_go-found :
      (rl : Rl11) (file : List ℕ) (ic : IntController) (m : M)
      → let func = get_func rl.rlcs in
        let drive = get_drive rl.rlcs in
        (func ≡ 1) ⊎ (6 ≤ func)
        → rl.disk drive ≡ some file
        → rl11_go memory rl ic m
          ≡ ended (read_command memory (func == 1) drive file (ready rl) m) ic
  unfolding rl11_go command
  rl11_go-found rl file ic m func found =
      let f : ℕ = get_func rl.rlcs in
      ap (λ r. ended r ic)
        (if_false (f == 0) _ _ (ground (arith, func))
          ∙ rw found (
              if_false (f == 2) _ _ (ground (arith, func))
              ∙ if_false (f == 3) _ _ (ground (arith, func))
              ∙ if_false (f == 4) _ _ (ground (arith, func))
              ∙ if_false (f == 5) _ _ (ground (arith, func))))

  -- The transfer as a whole when nothing stops it.
  abbrev pub complete : Rl11 → M → Transfer M
  complete rl m = record {
    ma = (start memory rl m).ma + word_count rl.rlmp (da_sect rl.rlda) * 2;
    errors = 0;
    aborted = false;
    mem = m;
  }
