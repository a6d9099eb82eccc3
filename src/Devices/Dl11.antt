-- ===== src/Devices/Dl11.antt =====
-- The serial line of the console terminal (pdp11/dl11/dl11.c, dl11.h), wired as `machine_init`
-- wires it, so that every callback is there. The host's terminal is `H`: its three callbacks are
-- parameters, and `rx_read` gives `none` for a negative result. `clock` is the processor's time.
pub mod Requests
pub mod Interrupts
pub mod Lines
use ll.Prelude.{
  ℕ, ◌+◌, ◌*◌, ◌/◌, ◌%◌, ◌^◌, bit_and, bit_or, Bool, true, false, not, ◌&&◌, Option, none, some,
  ◌==◌, leb, ltb, if◌then◌else◌, truthy,
}
use ll.Unibus.{even_addr}
use ll.Kd11ea.Int.{IntController}
use ll.Devices.{cpu_irq_set, cpu_irq_clr, Answer}

abbrev pub dl11_rcsr : ℕ
dl11_rcsr = 0x3ff70

abbrev pub dl11_rbuf : ℕ
dl11_rbuf = 0x3ff72

abbrev pub dl11_xcsr : ℕ
dl11_xcsr = 0x3ff74

abbrev pub dl11_xbuf : ℕ
dl11_xbuf = 0x3ff76

-- DONE of RCSR and RDY of XCSR.
abbrev pub csr_done : ℕ
csr_done = 0x80

abbrev pub csr_ie : ℕ
csr_ie = 0x40

abbrev pub rx_vec : ℕ
rx_vec = 0o60

abbrev pub tx_vec : ℕ
tx_vec = 0o64

pub record Dl11 (H : Type 0) : Type 0 where
  pub init_l : Bool
  pub rcsr : ℕ
  pub rbuf : ℕ
  pub xcsr : ℕ
  pub tx_done_at_ns : ℕ
  pub char_time_ns : ℕ
  pub host : H

unfoldable pub dl11_init : {H : Type 0} → ℕ → H → Dl11 H
dl11_init baud_rate host = record {
  init_l = true;
  rcsr = 0;
  rbuf = 0;
  xcsr = csr_done;
  tx_done_at_ns = 0;
  char_time_ns = 10 * 1000000000 / (if baud_rate == 0 then 9600 else baud_rate);
  host = host;
}

abbrev pub is_set : ℕ → ℕ → Bool
is_set csr mask = truthy (bit_and csr mask)

-- `csr & ~IE | data & IE`
abbrev pub with_ie : ℕ → ℕ → ℕ
with_ie csr word = bit_or (bit_and csr 0xffbf) (bit_and word csr_ie)

module _ {H : Type 0} (rx_ready : H → Bool) (rx_read : H → Option ℕ × H)
    (tx_write : ℕ → H → H) where
  -- The character on the line has been sent by that time.
  abbrev pub tx_due : ℕ → Dl11 H → Bool
  tx_due now dl =
      not (is_set dl.xcsr csr_done) && ltb 0 dl.tx_done_at_ns && leb dl.tx_done_at_ns now

  abbrev pub sent : Dl11 H → Dl11 H
  sent dl = record dl { xcsr = bit_or dl.xcsr csr_done; tx_done_at_ns = 0 }

  -- The end of a transmission, with its interrupt.
  pub tx_finish : ℕ → Dl11 H → IntController → Dl11 H × IntController
  unfolding cpu_irq_set
  tx_finish now dl ic =
      if tx_due now dl
      then (sent dl, if is_set (sent dl).xcsr csr_ie then cpu_irq_set tx_vec 4 ic else ic)
      else (dl, ic)

  abbrev pub rx_due : Dl11 H → Bool
  rx_due dl = not (is_set dl.rcsr csr_done) && rx_ready dl.host

  -- What the host has, if it has something.
  abbrev pub received : Dl11 H → Dl11 H
  received dl = elim (rx_read dl.host).0 [
    | none ↦ record dl { host = (rx_read dl.host).1 }
    | some ch ↦ record dl {
      rbuf = ch % 2 ^ 8;
      rcsr = bit_or dl.rcsr csr_done;
      host = (rx_read dl.host).1;
    }
  ]

  abbrev pub has_character : Dl11 H → Bool
  has_character dl = elim (rx_read dl.host).0 [ none ↦ false | some ch ↦ true ]

  pub rx_poll : Dl11 H → IntController → Dl11 H × IntController
  unfolding cpu_irq_set
  rx_poll dl ic =
      if rx_due dl
      then (
        received dl,
        if has_character dl && is_set (received dl).rcsr csr_ie
            then cpu_irq_set rx_vec 4 ic
            else ic,
      )
      else (dl, ic)

  unfoldable pub dl11_tick : ℕ → Dl11 H → IntController → Dl11 H × IntController
  unfolding tx_finish rx_poll
  dl11_tick now dl ic =
      if not dl.init_l then (dl, ic) else let t = tx_finish now dl ic in rx_poll t.0 t.1

  abbrev pub rcsr_polled : Dl11 H → Dl11 H
  rcsr_polled dl = if dl.init_l && rx_due dl then received dl else dl

  -- The poll in a read of RCSR asks for no interrupt.
  unfoldable pub dl11_read : ℕ → ℕ → Dl11 H → IntController → Answer (Dl11 H)
  unfolding tx_finish
  dl11_read clock addr dl ic =
      let reg = even_addr addr in
      if reg == dl11_rcsr
      then record { ok = true; word = (rcsr_polled dl).rcsr; device = rcsr_polled dl; intc = ic }
      else if reg == dl11_rbuf
      then record {
        ok = true;
        word = dl.rbuf;
        device = record dl { rcsr = bit_and dl.rcsr 0xff7f };
        intc = ic;
      }
      else if reg == dl11_xcsr
      then record {
        ok = true;
        word = (tx_finish clock dl ic).0.xcsr;
        device = (tx_finish clock dl ic).0;
        intc = (tx_finish clock dl ic).1;
      }
      else record { ok = reg == dl11_xbuf; word = 0; device = dl; intc = ic }

  -- Writes to RCSR and XCSR, with the edges of INT ENB.
  pub write_rcsr : ℕ → Dl11 H → IntController → Dl11 H × IntController
  unfolding cpu_irq_set cpu_irq_clr
  write_rcsr word dl ic =
      let old_ie = is_set dl.rcsr csr_ie in
      let rcsr = with_ie dl.rcsr word in
      let asked =
        if not old_ie && is_set rcsr csr_ie && is_set rcsr csr_done
        then cpu_irq_set rx_vec 4 ic
        else ic in
      (
        record dl { rcsr = rcsr },
        if old_ie && not (is_set rcsr csr_ie) then cpu_irq_clr rx_vec asked else asked,
      )

  pub write_xcsr : ℕ → Dl11 H → IntController → Dl11 H × IntController
  unfolding cpu_irq_set cpu_irq_clr
  write_xcsr word dl ic =
      let old_ie = is_set dl.xcsr csr_ie in
      let xcsr = with_ie dl.xcsr word in
      let asked =
        if not old_ie && is_set xcsr csr_ie && is_set xcsr csr_done
        then cpu_irq_set tx_vec 4 ic
        else ic in
      (
        record dl { xcsr = xcsr },
        if old_ie && not (is_set xcsr csr_ie) then cpu_irq_clr tx_vec asked else asked,
      )

  abbrev pub write_xbuf : ℕ → ℕ → Dl11 H → Dl11 H
  write_xbuf clock word dl = record dl {
    xcsr = bit_and dl.xcsr 0xff7f;
    tx_done_at_ns = clock + dl.char_time_ns;
    host = tx_write (bit_and word 0x7f) dl.host;
  }

  -- The Boolean is false for the return value -1.
  unfoldable pub dl11_write : ℕ → ℕ → ℕ → Dl11 H → IntController → Bool × Dl11 H × IntController
  unfolding write_rcsr write_xcsr
  dl11_write clock addr word dl ic =
      let reg = even_addr addr in
      if not dl.init_l
      then (true, dl, ic)
      else if reg == dl11_rcsr
      then (true, (write_rcsr word dl ic).0, (write_rcsr word dl ic).1)
      else if reg == dl11_rbuf
      then (true, dl, ic)
      else if reg == dl11_xcsr
      then (true, (write_xcsr word dl ic).0, (write_xcsr word dl ic).1)
      else if reg == dl11_xbuf
      then (true, write_xbuf clock word dl, ic)
      else (false, dl, ic)

  unfoldable pub dl11_bus_init : Bool → Dl11 H → IntController → Dl11 H × IntController
  unfolding cpu_irq_clr
  dl11_bus_init true dl ic = (record dl { init_l = true }, ic)
  dl11_bus_init false dl ic = (
    record dl { init_l = false; rcsr = 0; xcsr = csr_done; tx_done_at_ns = 0 },
    cpu_irq_clr tx_vec (cpu_irq_clr rx_vec ic),
  )
