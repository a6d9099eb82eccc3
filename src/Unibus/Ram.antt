-- ===== src/Unibus/Ram.antt =====
-- MS11-L memory (pdp11/unibus/ram.c, ram.h). `mem` gives the word at each word address below
-- `size_words`. A byte access goes through `uint8_t *`: on the little-endian hosts that ll-34 is
-- built for, byte 2k is the low byte of word k. Times are nanoseconds that fit in 64 bits.
pub mod Store
pub mod Timing
pub mod LastByte
use ll.Prelude.{
  ℕ, zero, suc, ◌+◌, ◌-◌, ◌*◌, ◌/◌, ◌%◌, ◌^◌, max, Bool, true, false, ◌&&◌, ◌||◌, Option, none,
  some, List, [], ◌∷◌, leb, ltb, ◌==◌, if◌then◌else◌, truthy, length,
}
use ll.Unibus.{Bus, BusDevice, BusState, BusReply, bus_datip, bus_register, bus_lookup}

abbrev pub ram_max_words : ℕ
ram_max_words = 126976

pub record Ram : Type 0 where
  pub mem : ℕ → ℕ
  pub size_words : ℕ
  pub busy_until_ns : ℕ
  pub next_refresh_ns : ℕ
  pub refresh_count : ℕ
  pub arbitration_count : ℕ
  pub wait_ns : ℕ
  pub read_ns : ℕ
  pub write_ns : ℕ
  pub cycle_ns : ℕ
  pub refresh_ns : ℕ
  pub refresh_interval_ns : ℕ
  pub arbitration_ns : ℕ

-- Sizes that memory cannot have mean all of it.
unfoldable pub ram_init : ℕ → Ram
ram_init size_words = record {
  mem = λ _. 0;
  size_words =
      if size_words == 0 || ltb ram_max_words size_words then ram_max_words else size_words;
  busy_until_ns = 0;
  next_refresh_ns = 14500;
  refresh_count = 0;
  arbitration_count = 0;
  wait_ns = 0;
  read_ns = 385;
  write_ns = 125;
  cycle_ns = 510;
  refresh_ns = 570;
  refresh_interval_ns = 14500;
  arbitration_ns = 60;
}

abbrev pub update : (ℕ → ℕ) → ℕ → ℕ → ℕ → ℕ
update mem i word j = if i == j then word else mem j

-- The word at `addr`, or `none` past the end.
unfoldable pub ram_read : ℕ → Ram → Option ℕ
ram_read addr ram = if leb ram.size_words (addr / 2) then none else some (ram.mem (addr / 2))

-- One byte of a word: the high one at an odd address.
abbrev pub put_byte : ℕ → ℕ → ℕ → ℕ
put_byte addr old word =
    if truthy (addr % 2)
    then word / 2 ^ 8 % 2 ^ 8 * 2 ^ 8 + old % 2 ^ 8
    else old / 2 ^ 8 * 2 ^ 8 + word % 2 ^ 8

-- DATOB carries the byte on the data lines of its half of the word.
unfoldable pub ram_write : ℕ → ℕ → Bool → Ram → Option Ram
ram_write addr word is_byte ram =
    if is_byte
    then if leb (ram.size_words * 2) addr
      then none
      else some
          (record ram { mem = update ram.mem (addr / 2) (put_byte addr (ram.mem (addr / 2)) word) })
    else if leb ram.size_words (addr / 2)
    then none
    else some (record ram { mem = update ram.mem (addr / 2) word })

-- The refresh loop of `ram_response`: the time at which the cycle can start, and the memory.
pub record Waiting : Type 0 where
  pub start : ℕ
  pub ram : Ram

-- One refresh: it waits for the cycle under way, and the new cycle waits for it.
pub refresh : Waiting → Waiting
refresh w =
    let r = w.ram in
    let ref =
      if ltb r.next_refresh_ns r.busy_until_ns then r.busy_until_ns else r.next_refresh_ns in
    let busy = ref + r.refresh_ns in
    record {
      start = if ltb w.start busy then busy else w.start;
      ram = record r {
        busy_until_ns = busy;
        next_refresh_ns = r.next_refresh_ns + r.refresh_interval_ns;
        refresh_count = r.refresh_count + 1;
      };
    }

abbrev pub refresh_due : Waiting → Bool
refresh_due w = truthy w.ram.refresh_interval_ns && leb w.ram.next_refresh_ns w.start

pub refresh_loop : ℕ → Waiting → Waiting
refresh_loop zero w = w
refresh_loop (suc fuel) w =
    let rest = refresh_loop fuel (refresh w) in if refresh_due w then rest else w

-- Rounds that the loop can need: one for each interval passed, and fewer.
abbrev pub rounds : Waiting → ℕ
rounds w = suc w.start - w.ram.next_refresh_ns

-- A cycle that would end just before a refresh waits for the arbiter.
pub arbitrate : Waiting → Waiting
arbitrate w =
    let r = w.ram in
    if truthy r.refresh_interval_ns && leb (r.next_refresh_ns - w.start) r.arbitration_ns
    then record {
      start = w.start + r.arbitration_ns;
      ram = record r { arbitration_count = r.arbitration_count + 1 };
    }
    else w

abbrev pub first_start : ℕ → Ram → Waiting
first_start now r = record {
  start = if ltb r.busy_until_ns now then now else r.busy_until_ns;
  ram = r;
}

-- When the cycle asked for at `now` starts.
pub ready : ℕ → Ram → Waiting
unfolding refresh refresh_loop arbitrate
ready now r = let w = first_start now r in arbitrate (refresh_loop (rounds w) w)

unfoldable pub ram_response : ℕ → ℕ → ℕ → Ram → ℕ × Ram
unfolding ready
ram_response addr type now r =
    let w = ready now r in
    (
      (w.start - now) % 2 ^ 32 + (if leb type bus_datip then r.read_ns else r.write_ns),
      record w.ram {
        busy_until_ns = w.start + w.ram.cycle_ns;
        wait_ns = w.ram.wait_ns + (w.start - now);
      },
    )

-- Memory as a device of a machine whose state has it as one part.
module _ {W : Type 0} (ram_of : W → Ram) (with_ram : Ram → W → W) where
  pub on_read : ℕ → BusState W → BusReply W
  on_read addr s = elim (ram_read addr (ram_of s.world)) [
    | none ↦ record { ok = false; word = 0; after = s }
    | some word ↦ record { ok = true; word = word; after = s }
  ]

  pub on_write : ℕ → ℕ → Bool → BusState W → BusReply W
  on_write addr word is_byte s = elim (ram_write addr word is_byte (ram_of s.world)) [
    | none ↦ record { ok = false; word = word; after = s }
    | some ram ↦ record {
      ok = true;
      word = word;
      after = record s { world = with_ram ram s.world };
    }
  ]

  pub on_response : ℕ → ℕ → ℕ → W → ℕ × W
  on_response addr type now w =
      let (latency, ram) = ram_response addr type now (ram_of w) in (latency, with_ram ram w)

  abbrev set_response : List (BusDevice W) → List (BusDevice W)
  set_response [] = []
  set_response (d ∷ []) = record d { response = some on_response } ∷ []
  set_response (d ∷ e ∷ ds) = d ∷ set_response (e ∷ ds)

  -- The last address that memory decodes is that of its last word.
  unfoldable pub ram_register : Ram → Bus W → Bool × Bus W
  unfolding on_read on_write on_response bus_register ram_read ram_write ram_response
  ram_register ram bus =
      let (ok, bus') = bus_register bus 0 (ram.size_words * 2 - 2) on_read on_write ram.read_ns in
      if ok then (true, record bus' { devices = set_response bus'.devices }) else (false, bus')
