-- ===== src/Unibus/Tests.antt =====
-- The bus and memory at concrete inputs.
use ll.Prelude.{
  ℕ, zero, suc, ◌≡◌, ◌≢◌, ◌⊎◌, refl, sym, Bool, true, none, some, List, [], ◌∷◌, arith,
}
use ll.Unibus.{Bus, BusState, idle_lines, bus_read}
use ll.Unibus.Dispatch.{IsSilent, IsTimeout, Answers, IsAnswer, read_addr, bus_read_lem}
use ll.Unibus.Init.{Receiver, AllHeard, callbacks}
use ll.Unibus.Ram.{Ram, ram_init, ram_read, ram_write}
use ll.Unibus.Ram.Store.{byte_at-ram_write, ram_out_of_range, byte_at, carried}
use ll.Unibus.Ram.LastByte.{memory_bus}

-- Memory of four words.
abbrev small : Ram
small = record (ram_init 4) { size_words = 4 }

abbrev idle : BusState Ram
idle = record { lines = idle_lines; world = small }

abbrev word_addr : ℕ
word_addr = 2

abbrev byte_addr : ℕ
byte_addr = 3

abbrev next_addr : ℕ
next_addr = 4

byte_at-ram_write_example :
    (ram' : Ram) × (ram_write 3 0x1234 true small ≡ some ram')
    × (byte_at ram'.mem 3 ≡ carried 3 0x1234)
    × (byte_addr ≢ word_addr → byte_at ram'.mem 2 ≡ byte_at small.mem 2)
byte_at-ram_write_example = byte_at-ram_write byte_addr word_addr 0x1234 small (omega arith)

ram_out_of_range_example : (ram_read 8 small ≡ none) × (ram_write 8 5 true small ≡ none)
ram_out_of_range_example = ram_out_of_range 8 5 true small (omega arith)

abbrev bus : Bus Ram
bus = memory_bus small

bus_read_lem_example :
    (IsSilent bus.devices (read_addr 8) × IsTimeout idle (bus_read bus 8 idle))
    ⊎ ((d : _) × Answers bus.devices (read_addr 8) d
        × IsAnswer d idle 8 0 (d.read 8) (bus_read bus 8 idle))
bus_read_lem_example = bus_read_lem bus 8 idle

-- Two devices that keep the level in a place of their own.
abbrev first : Receiver (Bool × Bool)
first = record { changed = λ l w. (l, w.1); heard = λ w. w.0; told = λ l w. refl }

abbrev second : Receiver (Bool × Bool)
second = record { changed = λ l w. (w.0, l); heard = λ w. w.1; told = λ l w. refl }

abbrev both : List (Receiver (Bool × Bool))
both = first ∷ second ∷ []

abbrev wired : Bus (Bool × Bool)
wired = record { devices = []; init_receivers = callbacks both }

abbrev running : BusState (Bool × Bool)
running = record { lines = idle_lines; world = (true, true) }

alone : AllHeard (first ∷ []) true (true, true)
alone zero r p = let e : first ≡ r = ground (arith, p) in rw (sym e) refl
alone (suc i) r p = absurd (cc)

abbrev one_wired : Bus (Bool × Bool)
one_wired = record { devices = []; init_receivers = callbacks (first ∷ []) }

-- One word at 2, and the start address 2.
abbrev tape : List ℕ
tape = 0 ∷ 1 ∷ 0 ∷ 8 ∷ 0 ∷ 2 ∷ 0 ∷ 52 ∷ 18 ∷ 175 ∷ 1 ∷ 0 ∷ 6 ∷ 0 ∷ 2 ∷ 0 ∷ 247 ∷ []
