-- ===== src/Devices/Pc11/Interrupts.antt =====
-- What writes and BUS INIT do to the requests of the paper tape, and the invariant of its life.
use ll.Prelude.{
  ℕ, ◌+◌, ◌%◌, ◌^◌, ◌≡◌, refl, inl, inr, bit_and, bit_or, masks, Bool, true, false, not, ◌&&◌,
  arith, ◌==◌, if◌then◌else◌, Option-cases,
}
use ll.Kd11ea.Int.{IntController}
use ll.Kd11ea.Int.Pending.{Pending}
use ll.Unibus.{even_addr}
use ll.Devices.{cpu_irq_set, cpu_irq_clr}
use ll.Devices.Quiet.{
  if-IsQuiet, request-IsQuiet, cancel-IsQuiet, enable-IsQuiet, Reachable, Reachable-IsQuiet,
}
use ll.Devices.Pc11.{
  Pc11, is_up, with_enable, pc11_ie, pc11_done, pc11_err, prs_busy, prs_go, ptr_vec, ptp_vec,
  pc11_prs, pc11_prb, pc11_pps, pc11_ppb,
}
use ll.Devices.Pc11.Write.{
  reader_go, write_prs_ie, write_prs, write_pps, write_ppb, pc11_write, pc11_bus_init,
}
use ll.Devices.Pc11.Requests.{
  is_pc11, enabled, Event, tick, read, write, bus_init, Quiet, is_ptp, is_ptr, same_ie-Quiet,
  tick-Quiet, read-Quiet,
}

-- A request may be withdrawn at any time.
withdrawn-Quiet :
    (v : ℕ) (pc : Pc11) (ic : IntController) → Quiet pc ic → Quiet pc (cpu_irq_clr v ic)
withdrawn-Quiet v pc ic q =
    cancel-IsQuiet is_pc11 enabled Event true v pc pc ic q (λ w m ne e. e) (λ _ e. e)

-- Asking again for the reader, or for the punch, if INT ENB is set.
reader_asks :
    (pc : Pc11) (ic : IntController)
    → Quiet pc ic
    → Quiet pc (if is_up pc.prs pc11_ie then cpu_irq_set ptr_vec 4 ic else ic)
reader_asks pc ic q =
    request-IsQuiet is_pc11 enabled Event (is_up pc.prs pc11_ie) ptr_vec 4 pc ic q (λ on. on)
      (omega arith) (omega arith)

punch_asks :
    (pc : Pc11) (ic : IntController)
    → Quiet pc ic
    → Quiet pc (if is_up pc.pps pc11_ie then cpu_irq_set ptp_vec 4 ic else ic)
punch_asks pc ic q =
    request-IsQuiet is_pc11 enabled Event (is_up pc.pps pc11_ie) ptp_vec 4 pc ic q (λ on. on)
      (omega arith) (omega arith)

reader_go-Quiet :
    (clock : ℕ) (pc : Pc11) (ic : IntController)
    → Quiet pc ic
    → Quiet (reader_go clock pc ic).0 (reader_go clock pc ic).1
unfolding reader_go
reader_go-Quiet clock pc ic q =
    let prs : ℕ = bit_or (bit_and pc.prs 0x7f7f) prs_busy in
    let failed : Pc11 = record pc {
      prs = bit_and (bit_or (bit_or prs pc11_err) pc11_done) 0xf7ff;
    } in
    let started : Pc11 = record pc { prs = prs; reader_done_ns = clock + pc.reader_char_ns } in
    elim (Option-cases pc.reader) [
      | inr (tape, e) ↦
          rw (reader_go, e)
            (withdrawn-Quiet ptr_vec started ic (same_ie-Quiet pc started ic (simp masks) refl q))
      | inl e ↦
          rw (reader_go, e)
            (reader_asks failed (cpu_irq_clr ptr_vec ic)
              (withdrawn-Quiet ptr_vec failed ic (same_ie-Quiet pc failed ic (simp masks) refl q)))
    ]

write_prs_ie-Quiet :
    (word : ℕ) (pc : Pc11) (ic : IntController)
    → Quiet pc ic
    → Quiet (write_prs_ie word pc ic).0 (write_prs_ie word pc ic).1
unfolding write_prs_ie
write_prs_ie-Quiet word pc ic q =
    let prs : ℕ = with_enable pc.prs word in
    enable-IsQuiet is_pc11 enabled Event (is_up pc.prs pc11_ie) (is_up prs pc11_ie)
      (is_up prs (bit_or pc11_done pc11_err)) ptr_vec 4 pc (record pc { prs = prs }) ic q refl refl
      (λ w m ne e. rw (is_ptp w m ne) (rw (is_ptp w m ne) at e)) (omega arith) (omega arith)

write_prs-Quiet :
    (clock word : ℕ) (pc : Pc11) (ic : IntController)
    → Quiet pc ic
    → Quiet (write_prs clock word pc ic).0 (write_prs clock word pc ic).1
unfolding write_prs
write_prs-Quiet clock word pc ic q =
    let w : Quiet (write_prs_ie word pc ic).0 (write_prs_ie word pc ic).1 =
      write_prs_ie-Quiet word pc ic q in
    if-IsQuiet is_pc11 enabled Event
      (is_up word prs_go && not (is_up (write_prs_ie word pc ic).0.prs prs_busy)) _ _
      (λ _. reader_go-Quiet clock _ _ w) (λ _. w)

write_pps-Quiet :
    (word : ℕ) (pc : Pc11) (ic : IntController)
    → Quiet pc ic
    → Quiet (write_pps word pc ic).0 (write_pps word pc ic).1
unfolding write_pps
write_pps-Quiet word pc ic q =
    let pps : ℕ = with_enable pc.pps word in
    enable-IsQuiet is_pc11 enabled Event (is_up pc.pps pc11_ie) (is_up pps pc11_ie)
      (is_up pps (bit_or pc11_done pc11_err)) ptp_vec 4 pc (record pc { pps = pps }) ic q refl refl
      (λ w m ne e. rw (is_ptr w m ne) (rw (is_ptr w m ne) at e)) (omega arith) (omega arith)

write_ppb-Quiet :
    (clock word : ℕ) (pc : Pc11) (ic : IntController)
    → Quiet pc ic
    → Quiet (write_ppb clock word pc ic).0 (write_ppb clock word pc ic).1
unfolding write_ppb
write_ppb-Quiet clock word pc ic q =
    let pps : ℕ = bit_and pc.pps 0xff7f in
    let failed : Pc11 = record pc {
      ppb = word % 2 ^ 8;
      pps = bit_or pps (bit_or pc11_err pc11_done);
    } in
    let started : Pc11 = record pc {
      ppb = word % 2 ^ 8;
      pps = pps;
      punch_done_ns = clock + pc.punch_char_ns;
    } in
    elim (Option-cases pc.punch) [
      | inr (tape, e) ↦
          rw (write_ppb, e)
            (withdrawn-Quiet ptp_vec started ic (same_ie-Quiet pc started ic refl (simp masks) q))
      | inl e ↦
          rw (write_ppb, e)
            (punch_asks failed (cpu_irq_clr ptp_vec ic)
              (withdrawn-Quiet ptp_vec failed ic (same_ie-Quiet pc failed ic refl (simp masks) q)))
    ]

-- The device and the requests after a write, on either branch of a test.
if-write :
    (b : Bool) (x y : Bool × Pc11 × IntController)
    → Quiet x.1 x.2
    → Quiet y.1 y.2
    → Quiet (if b then x else y).1 (if b then x else y).2
if-write true x y p q = p
if-write false x y p q = q

write-Quiet :
    (clock addr word : ℕ) (pc : Pc11) (ic : IntController)
    → Quiet pc ic
    → Quiet (pc11_write clock addr word pc ic).1 (pc11_write clock addr word pc ic).2
unfolding pc11_write
write-Quiet clock addr word pc ic q = if-write (not pc.init_l) _ _ q (
    if-write (even_addr addr == pc11_prs) _ _ (write_prs-Quiet clock word pc ic q) (
      if-write (even_addr addr == pc11_prb) _ _ q (
        if-write (even_addr addr == pc11_pps) _ _ (write_pps-Quiet word pc ic q)
          (if-write (even_addr addr == pc11_ppb) _ _ (write_ppb-Quiet clock word pc ic q) q))))

bus_init-Quiet :
    (init_l : Bool) (pc : Pc11) (ic : IntController)
    → Quiet pc ic
    → Quiet (pc11_bus_init init_l pc ic).0 (pc11_bus_init init_l pc ic).1
unfolding pc11_bus_init
bus_init-Quiet true pc ic q = same_ie-Quiet pc (record pc { init_l = true }) ic refl refl q
bus_init-Quiet false pc ic q =
    let half : Pc11 = record pc { prs = bit_and pc.prs pc11_err } in
    let one : Quiet half (cpu_irq_clr ptr_vec ic) =
      cancel-IsQuiet is_pc11 enabled Event true ptr_vec pc half ic q
        (λ w m ne e. rw (is_ptp w m ne) (rw (is_ptp w m ne) at e))
        (λ off. absurd (ground (arith, off))) in
    let pc' : Pc11 = record half {
      init_l = false;
      pps = bit_or (bit_and pc.pps pc11_err) pc11_done;
      reader_done_ns = 0;
      punch_done_ns = 0;
    } in
    cancel-IsQuiet is_pc11 enabled Event true ptp_vec half pc' _ one
      (λ w m ne e. rw (is_ptr w m ne) (rw (is_ptr w m ne) at e))
      (λ off. absurd (ground (arith, off)))

Event-Quiet :
    (pc : Pc11) (ic : IntController) (pc' : Pc11) (ic' : IntController)
    → Event pc ic pc' ic'
    → Quiet pc ic
    → Quiet pc' ic'
Event-Quiet _ _ _ _ (tick now pc ic) q = tick-Quiet now pc ic q
Event-Quiet _ _ _ _ (read clock addr pc ic) q = read-Quiet clock addr pc ic q
Event-Quiet _ _ _ _ (write clock addr word pc ic) q = write-Quiet clock addr word pc ic q
Event-Quiet _ _ _ _ (bus_init init_l pc ic) q = bus_init-Quiet init_l pc ic q

-- Whatever happens to a paper tape in any state and to a controller without requests, the reader's request is
-- pending only while INT ENB of PRS is set, and the punch's only while that of PPS is.
pub pc11-Pending-enabled :
    (start pc : Pc11) (ic : IntController)
    → Reachable is_pc11 enabled Event start pc ic
    → (Pending ic ptr_vec → is_up pc.prs pc11_ie ≡ true)
      × (Pending ic ptp_vec → is_up pc.pps pc11_ie ≡ true)
pc11-Pending-enabled start pc ic r =
    let q : Quiet pc ic = Reachable-IsQuiet is_pc11 enabled Event Event-Quiet r in
    (q.only_on ptr_vec refl, q.only_on ptp_vec refl)
