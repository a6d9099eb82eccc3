-- ===== src/Unibus/Ram/Store.antt =====
-- Memory as an array of words and as an array of bytes.
use ll.Prelude.{
  ℕ, ◌*◌, ◌/◌, ◌%◌, ◌^◌, ◌≤◌, ◌<◌, ◌≡◌, ◌≢◌, Bool, true, false, none, some, arith, if◌then◌else◌,
  truthy,
}
use ll.Unibus.Ram.{Ram, ram_read, ram_write, update, put_byte}

-- The byte at `addr`.
abbrev pub byte_at : (ℕ → ℕ) → ℕ → ℕ
byte_at mem addr = mem (addr / 2) / (if truthy (addr % 2) then 2 ^ 8 else 1) % 2 ^ 8

-- The byte that a DATOB to `addr` carries.
abbrev pub carried : ℕ → ℕ → ℕ
carried addr word = word / (if truthy (addr % 2) then 2 ^ 8 else 1) % 2 ^ 8

-- A word within memory is written and read back; every other word stays.
pub ram_read-ram_write :
    (addr other word : ℕ) (ram : Ram)
    → addr / 2 < ram.size_words
    → (ram' : Ram) × (ram_write addr word false ram ≡ some ram')
      × (ram_read addr ram' ≡ some word)
      × (addr / 2 ≢ other / 2 → ram_read other ram' ≡ ram_read other ram)
unfolding ram_read ram_write
ram_read-ram_write addr other word ram h = (
  record ram { mem = update ram.mem (addr / 2) word },
  ground arith,
  ground arith,
  λ ne. ground arith,
)

-- A byte write changes that byte, to the one on its half of the data lines, and no other byte.
pub byte_at-ram_write :
    (addr other word : ℕ) (ram : Ram)
    → addr < ram.size_words * 2
    → (ram' : Ram) × (ram_write addr word true ram ≡ some ram')
      × (byte_at ram'.mem addr ≡ carried addr word)
      × (addr ≢ other → byte_at ram'.mem other ≡ byte_at ram.mem other)
unfolding ram_write
byte_at-ram_write addr other word ram h = (
  record ram { mem = update ram.mem (addr / 2) (put_byte addr (ram.mem (addr / 2)) word) },
  ground arith,
  ground arith,
  λ ne. ground arith,
)

-- Past the end nothing is read or written.
pub ram_out_of_range :
    (addr word : ℕ) (is_byte : Bool) (ram : Ram)
    → ram.size_words ≤ addr / 2
    → (ram_read addr ram ≡ none) × (ram_write addr word is_byte ram ≡ none)
unfolding ram_read ram_write
ram_out_of_range addr word is_byte ram h = ground arith
