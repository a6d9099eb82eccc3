-- ===== src/Devices/Dl11/Requests.antt =====
-- The serial line asks for interrupts only while the INT ENB bit of that side is set.
use ll.Prelude.{
  ℕ, ◌≡◌, ◌≢◌, refl, ap, ◌∙◌, inl, inr, bit_and, masks, Bool, true, false, not, ◌&&◌, ◌||◌, Option,
  arith, ◌==◌, ==_iff, if◌then◌else◌, truthy, Bool-cases, Option-cases, and_true,
}
use ll.Kd11ea.Int.{IntController}
use ll.Unibus.{even_addr}
use ll.Devices.{Answer}
use ll.Devices.Quiet.{if-IsQuiet, change-IsQuiet, request-IsQuiet, IsQuiet}
use ll.Devices.Dl11.{
  Dl11, dl11_tick, dl11_read, dl11_write, dl11_bus_init, rx_vec, tx_vec, csr_ie, is_set, with_ie,
  tx_finish, rx_poll, sent, received, rx_due, tx_due, has_character, dl11_rcsr, dl11_rbuf,
  dl11_xcsr,
}

abbrev pub is_dl11 : ℕ → Bool
is_dl11 vector = vector == rx_vec || vector == tx_vec

-- INT ENB of the receiver or of the transmitter.
abbrev pub enabled : {H : Type 0} → ℕ → Dl11 H → Bool
enabled vector dl = is_set (if vector == rx_vec then dl.rcsr else dl.xcsr) csr_ie

pub pick-ie :
    (b : Bool) (r r' x x' : ℕ)
    → bit_and r' csr_ie ≡ bit_and r csr_ie
    → bit_and x' csr_ie ≡ bit_and x csr_ie
    → is_set (if b then r' else x') csr_ie ≡ is_set (if b then r else x) csr_ie
pick-ie true r r' x x' p q = ap truthy p
pick-ie false r r' x x' p q = ap truthy q

-- The other vector of the two.
pub other_vec : (w : ℕ) → is_dl11 w ≡ true → w ≢ rx_vec → (w == rx_vec) ≡ false
other_vec w m ne = elim (Bool-cases (w == rx_vec)) [
  | inl e ↦ absurd (ne ((==_iff w rx_vec).0 e))
  | inr e ↦ e
]

pub is_rx : (w : ℕ) → is_dl11 w ≡ true → w ≢ tx_vec → (w == rx_vec) ≡ true
is_rx w m ne = ground (arith, m, ne)

pub ie-with_ie : (csr word : ℕ) → bit_and (with_ie csr word) csr_ie ≡ bit_and word csr_ie
ie-with_ie csr word = simp masks

module _ {H : Type 0} (rx_ready : H → Bool) (rx_read : H → Option ℕ × H)
    (tx_write : ℕ → H → H) where
  -- What the line does itself.
  pub data Event : Dl11 H → IntController → Dl11 H → IntController → Type 0 where
    tick :
        (now : ℕ) (dl : Dl11 H) (ic : IntController)
        → Event dl ic
            (dl11_tick rx_ready rx_read tx_write now dl ic).0
            (dl11_tick rx_ready rx_read tx_write now dl ic).1
    read :
        (clock addr : ℕ) (dl : Dl11 H) (ic : IntController)
        → Event dl ic
            (dl11_read rx_ready rx_read tx_write clock addr dl ic).device
            (dl11_read rx_ready rx_read tx_write clock addr dl ic).intc
    write :
        (clock addr word : ℕ) (dl : Dl11 H) (ic : IntController)
        → Event dl ic
            (dl11_write rx_ready rx_read tx_write clock addr word dl ic).1
            (dl11_write rx_ready rx_read tx_write clock addr word dl ic).2
    bus_init :
        (init_l : Bool) (dl : Dl11 H) (ic : IntController)
        → Event dl ic
            (dl11_bus_init rx_ready rx_read tx_write init_l dl ic).0
            (dl11_bus_init rx_ready rx_read tx_write init_l dl ic).1

  abbrev pub Quiet : Dl11 H → IntController → Type 0
  Quiet = IsQuiet is_dl11 enabled Event

  -- A change that leaves both INT ENB bits alone.
  pub same_ie-Quiet :
      (dl dl' : Dl11 H) (ic : IntController)
      → bit_and dl'.rcsr csr_ie ≡ bit_and dl.rcsr csr_ie
      → bit_and dl'.xcsr csr_ie ≡ bit_and dl.xcsr csr_ie
      → Quiet dl ic
      → Quiet dl' ic
  same_ie-Quiet dl dl' ic r x q =
      change-IsQuiet is_dl11 enabled Event dl dl' ic q
        (λ v m e. pick-ie (v == rx_vec) dl.rcsr dl'.rcsr dl.xcsr dl'.xcsr r x ∙ e)

  tx_finish-Quiet :
      (now : ℕ) (dl : Dl11 H) (ic : IntController)
      → Quiet dl ic
      → Quiet
          (tx_finish rx_ready rx_read tx_write now dl ic).0
          (tx_finish rx_ready rx_read tx_write now dl ic).1
  unfolding tx_finish
  tx_finish-Quiet now dl ic q =
      let dl' : Dl11 H = sent rx_ready rx_read tx_write dl in
      if-IsQuiet is_dl11 enabled Event (tx_due rx_ready rx_read tx_write now dl) _ _
        (λ _.
          request-IsQuiet is_dl11 enabled Event (is_set dl'.xcsr csr_ie) tx_vec 4 dl' ic
            (same_ie-Quiet dl dl' ic refl (simp masks) q) (λ on. on) (omega arith) (omega arith))
        (λ _. q)

  received-ie :
      (dl : Dl11 H)
      → (bit_and (received rx_ready rx_read tx_write dl).rcsr csr_ie ≡ bit_and dl.rcsr csr_ie)
        × ((received rx_ready rx_read tx_write dl).xcsr ≡ dl.xcsr)
  received-ie dl = elim (Option-cases (rx_read dl.host).0) [
    | inl e ↦ rw (received, e) (refl, refl)
    | inr (ch, e) ↦ rw (received, e) (simp masks, refl)
  ]

  received-Quiet :
      (dl : Dl11 H) (ic : IntController)
      → Quiet dl ic
      → Quiet (received rx_ready rx_read tx_write dl) ic
  received-Quiet dl ic q =
      let (r, x) = received-ie dl in
      same_ie-Quiet dl (received rx_ready rx_read tx_write dl) ic r (ap (λ t. bit_and t csr_ie) x) q

  rx_poll-Quiet :
      (dl : Dl11 H) (ic : IntController)
      → Quiet dl ic
      → Quiet
          (rx_poll rx_ready rx_read tx_write dl ic).0
          (rx_poll rx_ready rx_read tx_write dl ic).1
  unfolding rx_poll
  rx_poll-Quiet dl ic q =
      let dl' : Dl11 H = received rx_ready rx_read tx_write dl in
      let asks : Bool = has_character rx_ready rx_read tx_write dl && is_set dl'.rcsr csr_ie in
      if-IsQuiet is_dl11 enabled Event (rx_due rx_ready rx_read tx_write dl) _ _
        (λ _.
          request-IsQuiet is_dl11 enabled Event asks rx_vec 4 dl' ic (received-Quiet dl ic q)
            (λ on. (and_true _ _ on).1) (omega arith) (omega arith))
        (λ _. q)

  pub tick-Quiet :
      (now : ℕ) (dl : Dl11 H) (ic : IntController)
      → Quiet dl ic
      → Quiet
          (dl11_tick rx_ready rx_read tx_write now dl ic).0
          (dl11_tick rx_ready rx_read tx_write now dl ic).1
  unfolding dl11_tick
  tick-Quiet now dl ic q =
      if-IsQuiet is_dl11 enabled Event (not dl.init_l) _ _ (λ _. q)
        (λ _. rx_poll-Quiet _ _ (tx_finish-Quiet now dl ic q))

  -- The answer of a read, on either branch of a test.
  if-read :
      (b : Bool) (x y : Answer (Dl11 H))
      → Quiet x.device x.intc
      → Quiet y.device y.intc
      → Quiet (if b then x else y).device (if b then x else y).intc
  if-read true x y p q = p
  if-read false x y p q = q

  polled-Quiet :
      (b : Bool) (dl : Dl11 H) (ic : IntController)
      → Quiet dl ic
      → Quiet (if b then received rx_ready rx_read tx_write dl else dl) ic
  polled-Quiet true dl ic q = received-Quiet dl ic q
  polled-Quiet false dl ic q = q

  pub read-Quiet :
      (clock addr : ℕ) (dl : Dl11 H) (ic : IntController)
      → Quiet dl ic
      → Quiet
          (dl11_read rx_ready rx_read tx_write clock addr dl ic).device
          (dl11_read rx_ready rx_read tx_write clock addr dl ic).intc
  unfolding dl11_read
  read-Quiet clock addr dl ic q =
      if-read (even_addr addr == dl11_rcsr) _ _
        (polled-Quiet (dl.init_l && rx_due rx_ready rx_read tx_write dl) dl ic q)
        (if-read (even_addr addr == dl11_rbuf) _ _
          (same_ie-Quiet dl (record dl { rcsr = bit_and dl.rcsr 0xff7f }) ic (simp masks) refl q)
          (if-read (even_addr addr == dl11_xcsr) _ _ (tx_finish-Quiet clock dl ic q) q))
