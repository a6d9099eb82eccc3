-- ===== src/Devices/Pc11.antt =====
-- Paper tape reader and punch (pdp11/pc11/pc11.c, pc11.h), wired as `machine_init` wires it. The
-- file on the reader is what `getc` has not read yet, and that on the punch what `putc` has
-- written; `fails` tells that `putc` gives an error. `clock` is the processor's time.
pub mod Write
pub mod Requests
pub mod Interrupts
use ll.Prelude.{
  ℕ, ◌+◌, ◌%◌, ◌^◌, bit_and, bit_or, Bool, true, false, not, ◌&&◌, Option, none, some, List, [],
  ◌∷◌, ◌++◌, ◌==◌, leb, ltb, if◌then◌else◌, truthy,
}
use ll.Unibus.{even_addr}
use ll.Kd11ea.Int.{IntController}
use ll.Devices.{cpu_irq_set, cpu_irq_clr, Answer}

abbrev pub pc11_prs : ℕ
pc11_prs = 0x3ff68

abbrev pub pc11_prb : ℕ
pc11_prb = 0x3ff6a

abbrev pub pc11_pps : ℕ
pc11_pps = 0x3ff6c

abbrev pub pc11_ppb : ℕ
pc11_ppb = 0x3ff6e

abbrev pub prs_go : ℕ
prs_go = 0x1

abbrev pub pc11_ie : ℕ
pc11_ie = 0x40

abbrev pub pc11_done : ℕ
pc11_done = 0x80

abbrev pub prs_busy : ℕ
prs_busy = 0x800

abbrev pub pc11_err : ℕ
pc11_err = 0x8000

abbrev pub ptr_vec : ℕ
ptr_vec = 0o70

abbrev pub ptp_vec : ℕ
ptp_vec = 0o74

pub record Punch : Type 0 where
  pub written : List ℕ
  pub fails : Bool

pub record Pc11 : Type 0 where
  pub init_l : Bool
  pub prs : ℕ
  pub prb : ℕ
  pub pps : ℕ
  pub ppb : ℕ
  pub reader : Option (List ℕ)
  pub punch : Option Punch
  pub reader_done_ns : ℕ
  pub punch_done_ns : ℕ
  pub reader_char_ns : ℕ
  pub punch_char_ns : ℕ

unfoldable pub pc11_init : Pc11
pc11_init = record {
  init_l = true;
  prs = 0;
  prb = 0;
  pps = pc11_done;
  ppb = 0;
  reader = none;
  punch = none;
  reader_done_ns = 0;
  punch_done_ns = 0;
  reader_char_ns = 3333333;
  punch_char_ns = 20000000;
}

-- Attaching a file, `none` where it cannot be opened. The Boolean is false for -1.
unfoldable pub pc11_attach_reader : Option (List ℕ) → Pc11 → Bool × Pc11
pc11_attach_reader none pc = (false, record pc { reader = none; prs = bit_or pc.prs pc11_err })
pc11_attach_reader (some tape) pc =
    (true, record pc { reader = some tape; prs = bit_and pc.prs 0x7fff })

unfoldable pub pc11_attach_punch : Option Punch → Pc11 → Bool × Pc11
pc11_attach_punch none pc = (false, record pc { punch = none; pps = bit_or pc.pps pc11_err })
pc11_attach_punch (some tape) pc =
    (true, record pc { punch = some tape; pps = bit_and pc.pps 0x7fff })

abbrev pub is_up : ℕ → ℕ → Bool
is_up csr mask = truthy (bit_and csr mask)

-- `csr & ~IE | data & IE`
abbrev pub with_enable : ℕ → ℕ → ℕ
with_enable csr word = bit_or (bit_and csr 0xffbf) (bit_and word pc11_ie)

-- No tape, or its end.
abbrev pub reader_failed : Pc11 → Pc11
reader_failed pc = record pc {
  prs = bit_and (bit_or (bit_or (bit_and pc.prs 0xf7ff) pc11_err) pc11_done) 0xf7ff;
  reader_done_ns = 0;
}

-- The reader after one character.
abbrev pub reader_served : Pc11 → Pc11
reader_served pc = elim pc.reader [
  | none ↦ reader_failed pc
  | some tape ↦ elim tape [
    | [] ↦ reader_failed pc
    | ch ∷ rest ↦ record pc {
      prb = ch % 2 ^ 8;
      prs = bit_and (bit_or (bit_and pc.prs 0xf7ff) pc11_done) 0x77ff;
      reader_done_ns = 0;
      reader = some rest;
    }
  ]
]

pub pc11_reader_service : Pc11 → IntController → Pc11 × IntController
unfolding cpu_irq_set
pc11_reader_service pc ic = (
  reader_served pc,
  if is_up (reader_served pc).prs pc11_ie then cpu_irq_set ptr_vec 4 ic else ic,
)

abbrev pub punch_failed : Pc11 → Pc11
punch_failed pc = record pc { pps = bit_or pc.pps (bit_or pc11_err pc11_done); punch_done_ns = 0 }

-- The punch after one character.
abbrev pub punch_served : Pc11 → Pc11
punch_served pc = elim pc.punch [
  | none ↦ punch_failed pc
  | some tape ↦ if tape.fails then punch_failed pc else record pc {
    pps = bit_and (bit_or pc.pps pc11_done) 0x7fff;
    punch_done_ns = 0;
    punch = some (record tape { written = tape.written ++ pc.ppb % 2 ^ 8 ∷ [] });
  }
]

pub pc11_punch_service : Pc11 → IntController → Pc11 × IntController
unfolding cpu_irq_set
pc11_punch_service pc ic =
    (punch_served pc, if is_up (punch_served pc).pps pc11_ie then cpu_irq_set ptp_vec 4 ic else ic)

abbrev pub reader_due : ℕ → Pc11 → Bool
reader_due now pc = is_up pc.prs prs_busy && ltb 0 pc.reader_done_ns && leb pc.reader_done_ns now

abbrev pub punch_due : ℕ → Pc11 → Bool
punch_due now pc =
    not (is_up pc.pps pc11_done) && ltb 0 pc.punch_done_ns && leb pc.punch_done_ns now

pub reader_poll : Bool → Pc11 → IntController → Pc11 × IntController
unfolding pc11_reader_service
reader_poll due pc ic = if due then pc11_reader_service pc ic else (pc, ic)

pub punch_poll : Bool → Pc11 → IntController → Pc11 × IntController
unfolding pc11_punch_service
punch_poll due pc ic = if due then pc11_punch_service pc ic else (pc, ic)

unfoldable pub pc11_tick : ℕ → Pc11 → IntController → Pc11 × IntController
unfolding reader_poll punch_poll
pc11_tick now pc ic =
    if not pc.init_l
    then (pc, ic)
    else let r = reader_poll (reader_due now pc) pc ic in punch_poll (punch_due now r.0) r.0 r.1

unfoldable pub pc11_read : ℕ → ℕ → Pc11 → IntController → Answer Pc11
unfolding reader_poll punch_poll cpu_irq_clr
pc11_read clock addr pc ic =
    let reg = even_addr addr in
    let r = reader_poll (pc.init_l && reader_due clock pc) pc ic in
    let p = punch_poll (pc.init_l && punch_due clock pc) pc ic in
    if reg == pc11_prs
    then record { ok = true; word = r.0.prs; device = r.0; intc = r.1 }
    else if reg == pc11_prb
    then record {
      ok = true;
      word = pc.prb % 2 ^ 8;
      device = record pc { prs = bit_and pc.prs 0xff7f };
      intc = cpu_irq_clr ptr_vec ic;
    }
    else if reg == pc11_pps
    then record { ok = true; word = p.0.pps; device = p.0; intc = p.1 }
    else record { ok = reg == pc11_ppb; word = 0; device = pc; intc = ic }
