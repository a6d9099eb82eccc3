-- ===== src/Devices/Dl11/Lines.antt =====
-- Characters through the serial line: when one has been sent, how one arrives, and which arrival
-- asks for no interrupt.
use ll.Prelude.{
  ℕ, ◌+◌, ◌<◌, ◌%◌, ◌^◌, ◌≡◌, refl, sym, ap, ◌∙◌, inl, inr, bit_and, bit_or, masks, Bool, true,
  false, not, ◌&&◌, Option, some, arith, leb, if◌then◌else◌, truthy, Bool-cases, lt→ltb, if_true,
  if_false, bit_and-bit, bit_or-line,
}
use ll.Kd11ea.Int.{IntController}
use ll.Devices.{cpu_irq_set}
use ll.Devices.Dl11.{
  Dl11, dl11_read, dl11_write, rx_vec, tx_vec, csr_ie, csr_done, is_set, tx_finish, rx_poll,
  received, rx_due, tx_due, has_character, dl11_rcsr, dl11_xcsr, dl11_xbuf, write_xbuf, rcsr_polled,
}

rdy_cleared : (x : ℕ) → is_set (bit_and x 0xff7f) csr_done ≡ false
rdy_cleared x =
    let none_left : bit_and (bit_and x 0xff7f) csr_done ≡ 0 = simp masks in ap truthy none_left

done_raised : (x : ℕ) → is_set (bit_or x csr_done) csr_done ≡ true
done_raised x = ground (arith, bit_and-bit 7 (bit_or x 128), bit_or-line 7 x 128)

ie_kept : (x : ℕ) → is_set (bit_or (bit_and x 0xff7f) csr_done) csr_ie ≡ is_set x csr_ie
ie_kept x =
    let kept : bit_and (bit_or (bit_and x 0xff7f) csr_done) csr_ie ≡ bit_and x csr_ie =
      simp masks in
    ap truthy kept

module _ {H : Type 0} (rx_ready : H → Bool) (rx_read : H → Option ℕ × H)
    (tx_write : ℕ → H → H) where
  -- The line after a write to XBUF.
  abbrev pub after_xbuf : ℕ → ℕ → Dl11 H → IntController → Dl11 H
  after_xbuf clock word dl ic = (dl11_write rx_ready rx_read tx_write clock dl11_xbuf word dl ic).1

  abbrev sending : ℕ → ℕ → Dl11 H → Dl11 H
  sending = write_xbuf rx_ready rx_read tx_write

  xbuf-eq :
      (clock word : ℕ) (dl : Dl11 H) (ic : IntController)
      → dl.init_l ≡ true
      → after_xbuf clock word dl ic ≡ sending clock word dl
  unfolding dl11_write
  xbuf-eq clock word dl ic up =
      ap (λ (t : Bool × Dl11 H × IntController). t.1) (if_false (not dl.init_l) _ _ (ap not up))

  due-eq :
      (now clock word : ℕ) (dl : Dl11 H)
      → 0 < clock + dl.char_time_ns
      → tx_due rx_ready rx_read tx_write now (sending clock word dl)
        ≡ leb (clock + dl.char_time_ns) now
  due-eq now clock word dl positive =
      rw (rdy_cleared dl.xcsr, lt→ltb 0 (clock + dl.char_time_ns) positive) refl

  -- What RDY and the requests are at `now` after a write to XBUF.
  finish-sending :
      (now clock word : ℕ) (dl : Dl11 H) (ic : IntController)
      → 0 < clock + dl.char_time_ns
      → let t = tx_finish rx_ready rx_read tx_write now (sending clock word dl) ic in
        let due = leb (clock + dl.char_time_ns) now in
        (is_set t.0.xcsr csr_done ≡ due)
        × (t.1 ≡ (if due && is_set dl.xcsr csr_ie then cpu_irq_set tx_vec 4 ic else ic))
  unfolding tx_finish
  finish-sending now clock word dl ic positive =
      elim (Bool-cases (leb (clock + dl.char_time_ns) now)) [
        | inl due ↦
            rw (due-eq now clock word dl positive, due, ie_kept dl.xcsr)
              (done_raised (bit_and dl.xcsr 0xff7f), refl)
        | inr early ↦ rw (due-eq now clock word dl positive, early) (rdy_cleared dl.xcsr, refl)
      ]

  -- The character written to XBUF reaches the terminal at once, in seven bits. XMIT RDY, as XCSR
  -- reads, is clear until one character time has passed and set from then on, and the read that
  -- finds it set asks for the interrupt if INT ENB is set.
  pub dl11_read-xbuf :
      (now clock word : ℕ) (dl : Dl11 H) (ic ic' : IntController)
      → dl.init_l ≡ true
      → 0 < clock + dl.char_time_ns
      → let d = after_xbuf clock word dl ic in
        let r = dl11_read rx_ready rx_read tx_write now dl11_xcsr d ic' in
        let due = leb (clock + dl.char_time_ns) now in
        (d.host ≡ tx_write (bit_and word 0x7f) dl.host)
        × (is_set r.word csr_done ≡ due)
        × (r.intc ≡ (if due && is_set dl.xcsr csr_ie then cpu_irq_set tx_vec 4 ic' else ic'))
  unfolding dl11_read
  dl11_read-xbuf now clock word dl ic ic' up positive =
      let e = xbuf-eq clock word dl ic up in
      let (rdy, asked) = finish-sending now clock word dl ic' positive in
      (
        ap (λ (d : Dl11 H). d.host) e,
        ap (λ d. is_set (tx_finish rx_ready rx_read tx_write now d ic').0.xcsr csr_done) e ∙ rdy,
        ap (λ d. (tx_finish rx_ready rx_read tx_write now d ic').1) e ∙ asked,
      )

  -- A character is there, and the receiver may take it.
  pub record HasArrived (dl : Dl11 H) (ch : ℕ) : Type 0 where
    pub up : dl.init_l ≡ true
    pub room : is_set dl.rcsr csr_done ≡ false
    pub ready : rx_ready dl.host ≡ true
    pub sent : (rx_read dl.host).0 ≡ some ch

  rx_due-HasArrived :
      (dl : Dl11 H) (ch : ℕ) → HasArrived dl ch → rx_due rx_ready rx_read tx_write dl ≡ true
  rx_due-HasArrived dl ch h = rw (h.room, h.ready) refl

  received-eq :
      (dl : Dl11 H) (ch : ℕ)
      → HasArrived dl ch
      → (received rx_ready rx_read tx_write dl ≡ record dl {
        rbuf = ch % 2 ^ 8;
        rcsr = bit_or dl.rcsr csr_done;
        host = (rx_read dl.host).1;
      })
        × (has_character rx_ready rx_read tx_write dl ≡ true)
  received-eq dl ch h = rw (received, has_character, h.sent) (refl, refl)

  ie_with_done : (x : ℕ) → is_set (bit_or x csr_done) csr_ie ≡ is_set x csr_ie
  ie_with_done x =
      let kept : bit_and (bit_or x csr_done) csr_ie ≡ bit_and x csr_ie = simp masks in
      ap truthy kept

  polled-eq :
      (dl : Dl11 H) (ch : ℕ)
      → HasArrived dl ch
      → rcsr_polled rx_ready rx_read tx_write dl ≡ received rx_ready rx_read tx_write dl
  polled-eq dl ch h =
      let both : dl.init_l && rx_due rx_ready rx_read tx_write dl ≡ true =
        ground (arith, h.up, rx_due-HasArrived dl ch h) in
      if_true _ _ _ both

  rx_poll-eq :
      (dl : Dl11 H) (ic : IntController) (ch : ℕ)
      → HasArrived dl ch
      → rx_poll rx_ready rx_read tx_write dl ic ≡ (
        received rx_ready rx_read tx_write dl,
        if is_set dl.rcsr csr_ie then cpu_irq_set rx_vec 4 ic else ic,
      )
  unfolding rx_poll
  rx_poll-eq dl ic ch h =
      let (taken, some_character) = received-eq dl ch h in
      let asks : has_character rx_ready rx_read tx_write dl
            && is_set (received rx_ready rx_read tx_write dl).rcsr csr_ie
          ≡ is_set dl.rcsr csr_ie =
        ap (λ b. b && is_set (received rx_ready rx_read tx_write dl).rcsr csr_ie) some_character
        ∙ ap (λ (d : Dl11 H). is_set d.rcsr csr_ie) taken
        ∙ ie_with_done dl.rcsr in
      if_true _ _ _ (rx_due-HasArrived dl ch h)
      ∙ ap (λ b. (received rx_ready rx_read tx_write dl, if b then cpu_irq_set rx_vec 4 ic else ic))
          asks

  -- A character that has arrived is taken by whoever polls first. The tick asks for an interrupt
  -- if INT ENB is set; a read of RCSR sets DONE as well, and asks for none.
  pub dl11_read-loses_interrupt :
      (clock : ℕ) (dl : Dl11 H) (ic : IntController) (ch : ℕ)
      → HasArrived dl ch
      → is_set dl.rcsr csr_ie ≡ true
      → let r = dl11_read rx_ready rx_read tx_write clock dl11_rcsr dl ic in
        let t = rx_poll rx_ready rx_read tx_write dl ic in
        (r.device ≡ t.0)
        × (is_set r.word csr_done ≡ true)
        × (r.intc ≡ ic)
        × (t.1 ≡ cpu_irq_set rx_vec 4 ic)
  unfolding dl11_read
  dl11_read-loses_interrupt clock dl ic ch h on =
      let same : rcsr_polled rx_ready rx_read tx_write dl ≡ received rx_ready rx_read tx_write dl =
        polled-eq dl ch h in
      let poll = rx_poll-eq dl ic ch h in
      (
        same ∙ sym (ap (λ (t : Dl11 H × IntController). t.0) poll),
        ap (λ (d : Dl11 H). is_set d.rcsr csr_done) (same ∙ (received-eq dl ch h).0)
            ∙ done_raised dl.rcsr,
        refl,
        ap (λ (t : Dl11 H × IntController). t.1) poll ∙ if_true _ _ _ on,
      )
