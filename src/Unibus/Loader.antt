-- ===== src/Unibus/Loader.antt =====
-- The loader of absolute binary tapes (`loader_lda` of pdp11/unibus/loader.c). The file is the
-- list of its bytes. A checksum that does not fit is only reported, and is left out.
pub mod Blocks
use ll.Prelude.{
  ℕ, zero, suc, ◌+◌, ◌-◌, ◌*◌, ◌/◌, ◌%◌, ◌^◌, Bool, true, false, Option, none, some, List, [], ◌∷◌,
  ltb, ◌==◌, if◌then◌else◌,
}
use ll.Unibus.Ram.{Ram, update, put_byte}

-- What the loader returns, `none` for -1, with the start address and memory.
pub record Load : Type 0 where
  pub code : Option ℕ
  pub start_addr : ℕ
  pub ram : Ram

-- The bytes of a block on their way to memory.
pub record Data : Type 0 where
  pub complete : Bool
  pub rest : List ℕ
  pub total : ℕ
  pub ram : Ram

-- After a block: the end, or what is left of the file.
pub data Block : Type 0 where
  stop : Load → Block
  more : List ℕ → ℕ → Ram → Block

abbrev pub fail : Ram → Block
fail ram = stop (record { code = none; start_addr = 0; ram = ram })

abbrev pub done : ℕ → ℕ → Ram → Block
done total start_addr ram = stop (record { code = some total; start_addr = start_addr; ram = ram })

-- A byte goes to its half of the word, if memory has it.
abbrev pub deposit : ℕ → ℕ → Ram → Ram
deposit addr c ram =
    if ltb (addr / 2) ram.size_words
    then record ram {
      mem =
          update ram.mem (addr / 2)
            (put_byte addr (ram.mem (addr / 2)) (c % 2 ^ 8 + c % 2 ^ 8 * 2 ^ 8));
    }
    else ram

unfoldable pub load_data : ℕ → List ℕ → ℕ → ℕ → Ram → Data
load_data zero bytes addr total ram = record {
  complete = true;
  rest = bytes;
  total = total;
  ram = ram;
}
load_data (suc n) [] addr total ram = record {
  complete = false;
  rest = [];
  total = total;
  ram = ram;
}
load_data (suc n) (c ∷ bytes) addr total ram =
    load_data n bytes ((addr + 1) % 2 ^ 16)
      (if ltb (addr / 2) ram.size_words then total + 1 else total) (deposit addr c ram)

unfoldable pub skip_leader : List ℕ → List ℕ
skip_leader [] = []
skip_leader (c ∷ bytes) = let rest = skip_leader bytes in if c == 0 then rest else c ∷ bytes

unfoldable pub read_checksum : List ℕ → ℕ → Ram → Block
read_checksum [] total ram = done total 0 ram
read_checksum (c ∷ bytes) total ram = more bytes total ram

unfoldable pub read_header : List ℕ → ℕ → Ram → Block
unfolding load_data read_checksum
read_header (cl ∷ ch ∷ ol ∷ oh ∷ bytes) total ram =
    let count = cl % 2 ^ 8 + ch % 2 ^ 8 * 2 ^ 8 in
    let origin = ol % 2 ^ 8 + oh % 2 ^ 8 * 2 ^ 8 in
    let d = load_data ((count + 2 ^ 16 - 6) % 2 ^ 16) bytes origin total ram in
    if count == 6
    then done total origin ram
    else if d.complete
    then read_checksum d.rest d.total d.ram
    else fail d.ram
read_header bytes total ram = done total 0 ram

unfoldable pub read_second : List ℕ → ℕ → Ram → Block
unfolding read_header
read_second [] total ram = fail ram
read_second (c ∷ bytes) total ram = if c == 0 then read_header bytes total ram else fail ram

unfoldable pub read_first : List ℕ → ℕ → Ram → Block
unfolding read_second
read_first [] total ram = done total 0 ram
read_first (c ∷ bytes) total ram = if c == 1 then read_second bytes total ram else fail ram

unfoldable pub lda_loop : ℕ → List ℕ → ℕ → Ram → Option Load
unfolding skip_leader read_first
lda_loop zero bytes total ram = none
lda_loop (suc fuel) bytes total ram = elim (read_first (skip_leader bytes) total ram) [
  | stop l ↦ some l
  | more rest total' ram' ↦ lda_loop fuel rest total' ram'
]

-- The file, or `none` where it cannot be opened.
unfoldable pub loader_lda : ℕ → Option (List ℕ) → Ram → Option Load
unfolding lda_loop
loader_lda fuel none ram = some (record { code = none; start_addr = 0; ram = ram })
loader_lda fuel (some bytes) ram = lda_loop fuel bytes 0 ram
