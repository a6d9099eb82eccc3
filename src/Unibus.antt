-- ===== src/Unibus.antt =====
-- Address dispatch of the Unibus (pdp11/unibus/unibus.c, unibus.h). `W` is the state that the
-- devices keep. A device's `void *dev` and its callbacks are one function on that state; `read` and
-- `write` also take the lines of the bus, since a disk controller starts transfers of its own.
pub mod Dispatch
pub mod Init
pub mod Loader
pub mod Ram
mod Tests
use ll.Prelude.{
  ℕ, ◌+◌, ◌*◌, ◌/◌, ◌%◌, ◌^◌, Bool, true, false, ◌&&◌, not, Option, none, some, List, [], ◌∷◌, ◌++◌,
  leb, ltb, ◌==◌, if◌then◌else◌, length,
}

abbrev pub bus_dati : ℕ
bus_dati = 0

abbrev pub bus_datip : ℕ
bus_datip = 1

abbrev pub bus_dato : ℕ
bus_dato = 2

abbrev pub bus_datob : ℕ
bus_datob = 3

abbrev pub bus_max_devices : ℕ
bus_max_devices = 16

-- The fields of `Bus` that change while it runs. INIT L is low, `false`, when asserted.
pub record BusLines : Type 0 where
  pub now_ns : ℕ
  pub timed_access : Bool
  pub last_latency_ns : ℕ
  pub nxm : Bool
  pub init_l : Bool
  pub init_asserted_ns : ℕ
  pub init_released_ns : ℕ

pub record BusState (W : Type 0) : Type 0 where
  pub lines : BusLines
  pub world : W

-- `false` stands for the return value -1; the number is what goes through `*data`.
pub record BusReply (W : Type 0) : Type 0 where
  pub ok : Bool
  pub word : ℕ
  pub after : BusState W

pub record BusDevice (W : Type 0) : Type 0 where
  pub base : ℕ
  pub end : ℕ
  pub read : ℕ → BusState W → BusReply W
  pub write : ℕ → ℕ → Bool → BusState W → BusReply W
  pub latency_ns : ℕ
  pub response : Option (ℕ → ℕ → ℕ → W → ℕ × W)

pub record Bus (W : Type 0) : Type 0 where
  pub devices : List (BusDevice W)
  pub init_receivers : List (Bool → W → W)

unfoldable pub bus_init : (W : Type 0) → Bus W
bus_init W = record { devices = []; init_receivers = [] }

abbrev pub idle_lines : BusLines
idle_lines = record {
  now_ns = 0;
  timed_access = false;
  last_latency_ns = 0;
  nxm = false;
  init_l = true;
  init_asserted_ns = 0;
  init_released_ns = 0;
}

abbrev level_lines : Bool → ℕ → BusLines → BusLines
level_lines true now l = record l { init_l = true; init_released_ns = now }
level_lines false now l = record l { init_l = false; init_asserted_ns = now; nxm = false }

abbrev pub same_level : Bool → Bool → Bool
same_level true b = b
same_level false b = not b

-- `addr & ~1`
abbrev pub even_addr : ℕ → ℕ
even_addr addr = addr / 2 * 2

module _ {W : Type 0} where
  -- The new receiver is told the present level at once.
  unfoldable pub bus_register_init : Bus W → (Bool → W → W) → BusState W → Bool × Bus W × BusState W
  bus_register_init bus changed s =
      if leb bus_max_devices (length bus.init_receivers) then (false, bus, s) else (
        true,
        record bus { init_receivers = bus.init_receivers ++ changed ∷ [] },
        record s { world = changed s.lines.init_l s.world },
      )

  pub tell : List (Bool → W → W) → Bool → W → W
  tell [] level w = w
  tell (changed ∷ rest) level w = tell rest level (changed level w)

  unfoldable pub bus_set_init : Bus W → Bool → ℕ → BusState W → BusState W
  unfolding tell
  bus_set_init bus level now s = if same_level s.lines.init_l level then s else record {
    lines = level_lines level now s.lines;
    world = tell bus.init_receivers level s.world;
  }

  -- `response` is set later, by ram_register alone. The name serves diagnostics only.
  unfoldable pub bus_register :
      Bus W
      → ℕ
      → ℕ
      → (ℕ → BusState W → BusReply W)
      → (ℕ → ℕ → Bool → BusState W → BusReply W)
      → ℕ
      → Bool × Bus W
  bus_register bus base end read write latency_ns =
      if leb bus_max_devices (length bus.devices)
      then (false, bus)
      else (true, record bus { devices = bus.devices ++ device ∷ [] })
    where
      device : BusDevice W
      device = record {
        base = base % 2 ^ 18;
        end = end % 2 ^ 18;
        read = read;
        write = write;
        latency_ns = latency_ns;
        response = none;
      }

  abbrev pub claims : BusDevice W → ℕ → Bool
  claims d addr = leb d.base addr && leb addr d.end

  unfoldable pub bus_lookup : List (BusDevice W) → ℕ → Option (BusDevice W)
  bus_lookup [] addr = none
  bus_lookup (d ∷ ds) addr = if claims d addr then some d else bus_lookup ds addr

  abbrev pub untimed : BusState W → BusState W
  untimed s = record s { lines = record s.lines { timed_access = false } }

  abbrev pub no_answer : BusState W → BusReply W
  no_answer s = record {
    ok = false;
    word = 0;
    after = record s { lines = record s.lines { last_latency_ns = 22000; nxm = true } };
  }

  -- The latency of the device, from its `response` where the access is timed and it has one.
  abbrev pub respond : BusDevice W → Bool → ℕ → ℕ → BusState W → ℕ × BusState W
  respond d timed addr type s = elim d.response [
    | none ↦ (d.latency_ns, s)
    | some f ↦
        let (latency, w) = f addr type s.lines.now_ns s.world in
        if timed then (latency, record s { world = w }) else (d.latency_ns, s)
  ]

  abbrev pub with_latency : ℕ → BusReply W → BusReply W
  with_latency latency r = record r {
    after = record r.after { lines = record r.after.lines { last_latency_ns = latency } };
  }

  unfoldable pub bus_read : Bus W → ℕ → BusState W → BusReply W
  unfolding bus_lookup
  bus_read bus address s =
      let addr = address % 2 ^ 18 in
      elim (bus_lookup bus.devices (even_addr addr)) [
        | none ↦ no_answer (untimed s)
        | some d ↦
            let (latency, s') = respond d s.lines.timed_access addr bus_dati (untimed s) in
            with_latency latency (d.read addr s')
      ]

  unfoldable pub bus_write : Bus W → ℕ → ℕ → ℕ → BusState W → BusReply W
  unfolding bus_lookup
  bus_write bus address word type s =
      let addr = address % 2 ^ 18 in
      let is_byte = type == bus_datob in
      elim (bus_lookup bus.devices (if is_byte then addr else even_addr addr)) [
        | none ↦ no_answer (untimed s)
        | some d ↦
            let (latency, s') = respond d s.lines.timed_access addr type (untimed s) in
            with_latency latency (d.write addr word is_byte s')
      ]

  abbrev timed_at : ℕ → BusState W → BusState W
  timed_at msyn_ns s = record s { lines = record s.lines { now_ns = msyn_ns; timed_access = true } }

  unfoldable pub bus_read_at : Bus W → ℕ → ℕ → BusState W → BusReply W
  unfolding bus_read
  bus_read_at bus addr msyn_ns s = bus_read bus addr (timed_at msyn_ns s)

  unfoldable pub bus_write_at : Bus W → ℕ → ℕ → ℕ → ℕ → BusState W → BusReply W
  unfolding bus_write
  bus_write_at bus addr word type msyn_ns s = bus_write bus addr word type (timed_at msyn_ns s)
