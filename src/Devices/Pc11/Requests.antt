-- ===== src/Devices/Pc11/Requests.antt =====
-- The paper tape asks for interrupts only while the INT ENB bit of that side is set.
use ll.Prelude.{
  ℕ, ◌≡◌, ◌≢◌, refl, ap, ◌∙◌, inl, inr, bit_and, masks, Bool, true, false, not, ◌&&◌, ◌||◌, [], ◌∷◌,
  arith, ◌==◌, ==_iff, if◌then◌else◌, truthy, Bool-cases, Option-cases,
}
use ll.Kd11ea.Int.{IntController}
use ll.Unibus.{even_addr}
use ll.Devices.{Answer}
use ll.Devices.Quiet.{if-IsQuiet, change-IsQuiet, request-IsQuiet, cancel-IsQuiet, IsQuiet}
use ll.Devices.Pc11.{
  Pc11, pc11_tick, pc11_read, reader_served, punch_served, pc11_reader_service, pc11_punch_service,
  reader_poll, punch_poll, reader_due, punch_due, is_up, pc11_ie, ptr_vec, ptp_vec, pc11_prs,
  pc11_prb, pc11_pps,
}
use ll.Devices.Pc11.Write.{pc11_write, pc11_bus_init}

abbrev pub is_pc11 : ℕ → Bool
is_pc11 vector = vector == ptr_vec || vector == ptp_vec

-- INT ENB of the reader or of the punch.
abbrev pub enabled : ℕ → Pc11 → Bool
enabled vector pc = is_up (if vector == ptr_vec then pc.prs else pc.pps) pc11_ie

-- What the paper tape does itself.
pub data Event : Pc11 → IntController → Pc11 → IntController → Type 0 where
  tick :
      (now : ℕ) (pc : Pc11) (ic : IntController)
      → Event pc ic (pc11_tick now pc ic).0 (pc11_tick now pc ic).1
  read :
      (clock addr : ℕ) (pc : Pc11) (ic : IntController)
      → Event pc ic (pc11_read clock addr pc ic).device (pc11_read clock addr pc ic).intc
  write :
      (clock addr word : ℕ) (pc : Pc11) (ic : IntController)
      → Event pc ic (pc11_write clock addr word pc ic).1 (pc11_write clock addr word pc ic).2
  bus_init :
      (init_l : Bool) (pc : Pc11) (ic : IntController)
      → Event pc ic (pc11_bus_init init_l pc ic).0 (pc11_bus_init init_l pc ic).1

abbrev pub Quiet : Pc11 → IntController → Type 0
Quiet = IsQuiet is_pc11 enabled Event

pick-ie :
    (b : Bool) (r r' x x' : ℕ)
    → bit_and r' pc11_ie ≡ bit_and r pc11_ie
    → bit_and x' pc11_ie ≡ bit_and x pc11_ie
    → is_up (if b then r' else x') pc11_ie ≡ is_up (if b then r else x) pc11_ie
pick-ie true r r' x x' p q = ap truthy p
pick-ie false r r' x x' p q = ap truthy q

-- The other vector of the two.
pub is_ptp : (w : ℕ) → is_pc11 w ≡ true → w ≢ ptr_vec → (w == ptr_vec) ≡ false
is_ptp w m ne = elim (Bool-cases (w == ptr_vec)) [
  | inl e ↦ absurd (ne ((==_iff w ptr_vec).0 e))
  | inr e ↦ e
]

pub is_ptr : (w : ℕ) → is_pc11 w ≡ true → w ≢ ptp_vec → (w == ptr_vec) ≡ true
is_ptr w m ne = ground (arith, m, ne)

-- A change that leaves both INT ENB bits alone.
pub same_ie-Quiet :
    (pc pc' : Pc11) (ic : IntController)
    → bit_and pc'.prs pc11_ie ≡ bit_and pc.prs pc11_ie
    → bit_and pc'.pps pc11_ie ≡ bit_and pc.pps pc11_ie
    → Quiet pc ic
    → Quiet pc' ic
same_ie-Quiet pc pc' ic r x q =
    change-IsQuiet is_pc11 enabled Event pc pc' ic q
      (λ v m e. pick-ie (v == ptr_vec) pc.prs pc'.prs pc.pps pc'.pps r x ∙ e)

reader_served-ie :
    (pc : Pc11)
    → (bit_and (reader_served pc).prs pc11_ie ≡ bit_and pc.prs pc11_ie)
      × ((reader_served pc).pps ≡ pc.pps)
reader_served-ie pc = elim (Option-cases pc.reader) [
  | inl e ↦ rw (reader_served, e) (simp masks, refl)
  | inr ([], e) ↦ rw (reader_served, e) (simp masks, refl)
  | inr (ch ∷ rest, e) ↦ rw (reader_served, e) (simp masks, refl)
]

punch_served-ie :
    (pc : Pc11)
    → (bit_and (punch_served pc).pps pc11_ie ≡ bit_and pc.pps pc11_ie)
      × ((punch_served pc).prs ≡ pc.prs)
punch_served-ie pc = elim (Option-cases pc.punch) [
  | inl e ↦ rw (punch_served, e) (simp masks, refl)
  | inr (tape, e) ↦ elim (Bool-cases tape.fails) [
    | inl bad ↦ rw (punch_served, e, bad) (simp masks, refl)
    | inr good ↦ rw (punch_served, e, good) (simp masks, refl)
  ]
]

pub reader_poll-Quiet :
    (b : Bool) (pc : Pc11) (ic : IntController)
    → Quiet pc ic
    → Quiet (reader_poll b pc ic).0 (reader_poll b pc ic).1
unfolding reader_poll pc11_reader_service
reader_poll-Quiet false pc ic q = q
reader_poll-Quiet true pc ic q =
    let (r, x) = reader_served-ie pc in
    request-IsQuiet is_pc11 enabled Event (is_up (reader_served pc).prs pc11_ie) ptr_vec 4
      (reader_served pc) ic
      (same_ie-Quiet pc (reader_served pc) ic r (ap (λ t. bit_and t pc11_ie) x) q) (λ on. on)
      (omega arith) (omega arith)

pub punch_poll-Quiet :
    (b : Bool) (pc : Pc11) (ic : IntController)
    → Quiet pc ic
    → Quiet (punch_poll b pc ic).0 (punch_poll b pc ic).1
unfolding punch_poll pc11_punch_service
punch_poll-Quiet false pc ic q = q
punch_poll-Quiet true pc ic q =
    let (x, r) = punch_served-ie pc in
    request-IsQuiet is_pc11 enabled Event (is_up (punch_served pc).pps pc11_ie) ptp_vec 4
      (punch_served pc) ic
      (same_ie-Quiet pc (punch_served pc) ic (ap (λ t. bit_and t pc11_ie) r) x q) (λ on. on)
      (omega arith) (omega arith)

pub tick-Quiet :
    (now : ℕ) (pc : Pc11) (ic : IntController)
    → Quiet pc ic
    → Quiet (pc11_tick now pc ic).0 (pc11_tick now pc ic).1
unfolding pc11_tick
tick-Quiet now pc ic q =
    if-IsQuiet is_pc11 enabled Event (not pc.init_l) _ _ (λ _. q)
      (λ _.
        punch_poll-Quiet (punch_due now (reader_poll (reader_due now pc) pc ic).0) _ _
          (reader_poll-Quiet (reader_due now pc) pc ic q))

if-read :
    (b : Bool) (x y : Answer Pc11)
    → Quiet x.device x.intc
    → Quiet y.device y.intc
    → Quiet (if b then x else y).device (if b then x else y).intc
if-read true x y p q = p
if-read false x y p q = q

pub read-Quiet :
    (clock addr : ℕ) (pc : Pc11) (ic : IntController)
    → Quiet pc ic
    → Quiet (pc11_read clock addr pc ic).device (pc11_read clock addr pc ic).intc
unfolding pc11_read
read-Quiet clock addr pc ic q =
    let taken : Pc11 = record pc { prs = bit_and pc.prs 0xff7f } in
    if-read (even_addr addr == pc11_prs) _ _
      (reader_poll-Quiet (pc.init_l && reader_due clock pc) pc ic q)
      (if-read (even_addr addr == pc11_prb) _ _
        (cancel-IsQuiet is_pc11 enabled Event true ptr_vec taken taken ic
          (same_ie-Quiet pc taken ic (simp masks) refl q) (λ w m ne e. e) (λ _ e. e))
        (if-read (even_addr addr == pc11_pps) _ _
          (punch_poll-Quiet (pc.init_l && punch_due clock pc) pc ic q) q))
