-- ===== src/Unibus/Ram/LastByte.antt =====
-- Memory alone on a bus: which addresses it answers, for words and for bytes.
use ll.Prelude.{ℕ, ◌-◌, ◌*◌, ◌%◌, ◌^◌, Bool, some}
use ll.Unibus.{Bus, BusDevice, BusState, bus_init, bus_read, bus_write}
use ll.Unibus.Ram.{Ram, ram_register, on_read, on_write, on_response}

-- A bus with memory and nothing else.
abbrev pub memory_bus : Ram → Bus Ram
memory_bus r = (ram_register (λ t. t) (λ t _. t) r (bus_init Ram)).1

-- The one device decodes the range that it registers.
abbrev memory_device : Ram → BusDevice Ram
memory_device r = record {
  base = 0;
  end = (r.size_words * 2 - 2) % 2 ^ 18;
  read = on_read (λ t. t) (λ t _. t);
  write = on_write (λ t. t) (λ t _. t);
  latency_ns = r.read_ns;
  response = some (on_response (λ t. t) (λ t _. t));
}

-- Whether a cycle is answered by memory alone on a bus.
abbrev pub answers_read : Ram → ℕ → BusState Ram → Bool
answers_read r addr s = (bus_read (memory_bus r) addr s).ok

abbrev pub answers_write : Ram → ℕ → ℕ → ℕ → BusState Ram → Bool
answers_write r addr word type s = (bus_write (memory_bus r) addr word type s).ok
