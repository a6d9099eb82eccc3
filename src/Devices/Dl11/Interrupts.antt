-- ===== src/Devices/Dl11/Interrupts.antt =====
-- What writes and BUS INIT do to the requests of the serial line, and the invariant of its life.
use ll.Prelude.{ℕ, ◌≡◌, refl, masks, Bool, true, false, not, Option, arith, ◌==◌, if◌then◌else◌}
use ll.Kd11ea.Int.{IntController}
use ll.Kd11ea.Int.Pending.{Pending}
use ll.Unibus.{even_addr}
use ll.Devices.Quiet.{cancel-IsQuiet, enable-IsQuiet, Reachable, Reachable-IsQuiet}
use ll.Devices.Dl11.{
  Dl11, dl11_init, dl11_write, dl11_bus_init, rx_vec, tx_vec, csr_ie, csr_done, is_set, with_ie,
  write_rcsr, write_xcsr, write_xbuf, dl11_rcsr, dl11_rbuf, dl11_xcsr, dl11_xbuf,
}
use ll.Devices.Dl11.Requests.{
  is_dl11, enabled, Event, tick, read, write, bus_init, Quiet, same_ie-Quiet, tick-Quiet,
  read-Quiet, other_vec, is_rx,
}

module _ {H : Type 0} (rx_ready : H → Bool) (rx_read : H → Option ℕ × H)
    (tx_write : ℕ → H → H) where
  abbrev Ev : Dl11 H → IntController → Dl11 H → IntController → Type 0
  Ev = Event rx_ready rx_read tx_write

  abbrev Q : Dl11 H → IntController → Type 0
  Q = Quiet rx_ready rx_read tx_write

  write_rcsr-Quiet :
      (word : ℕ) (dl : Dl11 H) (ic : IntController)
      → Q dl ic
      → Q
          (write_rcsr rx_ready rx_read tx_write word dl ic).0
          (write_rcsr rx_ready rx_read tx_write word dl ic).1
  unfolding write_rcsr
  write_rcsr-Quiet word dl ic q =
      enable-IsQuiet is_dl11 enabled Ev (is_set dl.rcsr csr_ie)
        (is_set (with_ie dl.rcsr word) csr_ie) (is_set (with_ie dl.rcsr word) csr_done) rx_vec 4 dl
        (record dl { rcsr = with_ie dl.rcsr word }) ic q refl refl
        (λ w m ne e. rw (other_vec w m ne) (rw (other_vec w m ne) at e)) (omega arith) (omega arith)

  write_xcsr-Quiet :
      (word : ℕ) (dl : Dl11 H) (ic : IntController)
      → Q dl ic
      → Q
          (write_xcsr rx_ready rx_read tx_write word dl ic).0
          (write_xcsr rx_ready rx_read tx_write word dl ic).1
  unfolding write_xcsr
  write_xcsr-Quiet word dl ic q =
      enable-IsQuiet is_dl11 enabled Ev (is_set dl.xcsr csr_ie)
        (is_set (with_ie dl.xcsr word) csr_ie) (is_set (with_ie dl.xcsr word) csr_done) tx_vec 4 dl
        (record dl { xcsr = with_ie dl.xcsr word }) ic q refl refl
        (λ w m ne e. rw (is_rx w m ne) (rw (is_rx w m ne) at e)) (omega arith) (omega arith)

  -- The device and the requests after a write, on either branch of a test.
  if-write :
      (b : Bool) (x y : Bool × Dl11 H × IntController)
      → Q x.1 x.2
      → Q y.1 y.2
      → Q (if b then x else y).1 (if b then x else y).2
  if-write true x y p q = p
  if-write false x y p q = q

  write-Quiet :
      (clock addr word : ℕ) (dl : Dl11 H) (ic : IntController)
      → Q dl ic
      → Q
          (dl11_write rx_ready rx_read tx_write clock addr word dl ic).1
          (dl11_write rx_ready rx_read tx_write clock addr word dl ic).2
  unfolding dl11_write
  write-Quiet clock addr word dl ic q =
      let dl' : Dl11 H = write_xbuf rx_ready rx_read tx_write clock word dl in
      if-write (not dl.init_l) _ _ q (
        if-write (even_addr addr == dl11_rcsr) _ _ (write_rcsr-Quiet word dl ic q) (
          if-write (even_addr addr == dl11_rbuf) _ _ q (
            if-write (even_addr addr == dl11_xcsr) _ _ (write_xcsr-Quiet word dl ic q) (
              if-write (even_addr addr == dl11_xbuf) _ _
                (same_ie-Quiet rx_ready rx_read tx_write dl dl' ic refl (simp masks) q) q))))

  bus_init-Quiet :
      (init_l : Bool) (dl : Dl11 H) (ic : IntController)
      → Q dl ic
      → Q
          (dl11_bus_init rx_ready rx_read tx_write init_l dl ic).0
          (dl11_bus_init rx_ready rx_read tx_write init_l dl ic).1
  unfolding dl11_bus_init
  bus_init-Quiet true dl ic q =
      same_ie-Quiet rx_ready rx_read tx_write dl (record dl { init_l = true }) ic refl refl q
  bus_init-Quiet false dl ic q =
      let half : Dl11 H = record dl { rcsr = 0 } in
      let one : Q half _ =
        cancel-IsQuiet is_dl11 enabled Ev true rx_vec dl half ic q
          (λ w m ne e. rw (other_vec w m ne) (rw (other_vec w m ne) at e))
          (λ off. absurd (ground (arith, off))) in
      let dl' : Dl11 H = record half { init_l = false; xcsr = csr_done; tx_done_at_ns = 0 } in
      cancel-IsQuiet is_dl11 enabled Ev true tx_vec half dl' _ one
        (λ w m ne e. rw (is_rx w m ne) (rw (is_rx w m ne) at e))
        (λ off. absurd (ground (arith, off)))

  Event-Quiet :
      (dl : Dl11 H) (ic : IntController) (dl' : Dl11 H) (ic' : IntController)
      → Ev dl ic dl' ic'
      → Q dl ic
      → Q dl' ic'
  Event-Quiet _ _ _ _ (tick now dl ic) q = tick-Quiet rx_ready rx_read tx_write now dl ic q
  Event-Quiet _ _ _ _ (read clock addr dl ic) q =
      read-Quiet rx_ready rx_read tx_write clock addr dl ic q
  Event-Quiet _ _ _ _ (write clock addr word dl ic) q = write-Quiet clock addr word dl ic q
  Event-Quiet _ _ _ _ (bus_init init_l dl ic) q = bus_init-Quiet init_l dl ic q

  -- Whatever happens to the line and to the controller, a receiver's request is pending only
  -- while INT ENB of RCSR is set, and a transmitter's only while that of XCSR is.
  pub dl11-Pending-enabled :
      (baud_rate : ℕ) (host : H) (dl : Dl11 H) (ic : IntController)
      → Reachable is_dl11 enabled Ev (dl11_init baud_rate host) dl ic
      → (Pending ic rx_vec → is_set dl.rcsr csr_ie ≡ true)
        × (Pending ic tx_vec → is_set dl.xcsr csr_ie ≡ true)
  dl11-Pending-enabled baud_rate host dl ic r =
      let q : Q dl ic = Reachable-IsQuiet is_dl11 enabled Ev Event-Quiet r in
      (q.only_on rx_vec refl, q.only_on tx_vec refl)
