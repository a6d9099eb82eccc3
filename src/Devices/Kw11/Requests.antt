-- ===== src/Devices/Kw11/Requests.antt =====
-- The line clock asks for interrupts only while INT ENB is set, whatever else happens meanwhile.
use ll.Prelude.{
  ℕ, ◌≡◌, ◌≢◌, refl, ap, ◌∙◌, bit_and, bit_or, masks, Bool, true, false, not, arith, leb, ◌==◌,
  ==_iff, truthy,
}
use ll.Kd11ea.Int.{IntController}
use ll.Kd11ea.Int.Pending.{Pending}
use ll.Devices.Quiet.{
  if-IsQuiet, change-IsQuiet, request-IsQuiet, cancel-IsQuiet, IsQuiet, Reachable,
  Reachable-IsQuiet,
}
use ll.Devices.Kw11.{
  Kw11, kw11_init, kw11_tick, kw11_write, kw11_bus_init, kw11_vec, kw11_pri, kw11_ie, kw11_mon,
  started, edge,
}

-- INT ENB.
abbrev pub enabled : ℕ → Kw11 → Bool
enabled vector kw = truthy (bit_and kw.lks kw11_ie)

abbrev pub is_kw11 : ℕ → Bool
is_kw11 vector = vector == kw11_vec

-- What the clock does itself: an edge of the mains, a write to LKS, BUS INIT.
pub data Event : Kw11 → IntController → Kw11 → IntController → Type 0 where
  tick :
      (now : ℕ) (kw : Kw11) (ic : IntController)
      → Event kw ic (kw11_tick now kw ic).0 (kw11_tick now kw ic).1
  write :
      (word : ℕ) (kw : Kw11) (ic : IntController)
      → Event kw ic (kw11_write word kw ic).0 (kw11_write word kw ic).1
  bus_init :
      (init_l : Bool) (kw : Kw11) (ic : IntController)
      → Event kw ic (kw11_bus_init init_l kw ic).0 (kw11_bus_init init_l kw ic).1

abbrev Quiet : Kw11 → IntController → Type 0
Quiet = IsQuiet is_kw11 enabled Event

edge-enabled : (now v : ℕ) (kw : Kw11) → enabled v (edge now kw) ≡ enabled v kw
edge-enabled now v kw = ap truthy (simp masks)

tick-Quiet :
    (now : ℕ) (kw : Kw11) (ic : IntController)
    → Quiet kw ic
    → Quiet (kw11_tick now kw ic).0 (kw11_tick now kw ic).1
unfolding kw11_tick
tick-Quiet now kw ic q =
    let k : Kw11 = started now kw in
    let s : Quiet k ic = change-IsQuiet is_kw11 enabled Event kw k ic q (λ v m e. e) in
    let t : Quiet (edge now k) ic =
      change-IsQuiet is_kw11 enabled Event k (edge now k) ic s
        (λ v m e. edge-enabled now v k ∙ e) in
    if-IsQuiet is_kw11 enabled Event (not kw.init_l) _ _ (λ _. q)
      (λ _.
        if-IsQuiet is_kw11 enabled Event (leb k.next_tick_ns now) _ _
          (λ _.
            request-IsQuiet is_kw11 enabled Event (enabled kw11_vec (edge now k)) kw11_vec kw11_pri
              (edge now k) ic t (λ on. on) (omega arith) (omega arith))
          (λ _. s))

clock_only : (w : ℕ) → is_kw11 w ≡ true → w ≢ kw11_vec → ⊥
clock_only w m ne = ne ((==_iff w kw11_vec).0 m)

write-Quiet :
    (word : ℕ) (kw : Kw11) (ic : IntController)
    → Quiet kw ic
    → Quiet (kw11_write word kw ic).0 (kw11_write word kw ic).1
unfolding kw11_write
write-Quiet word kw ic q =
    let k : Kw11 = record kw { lks = bit_and word (bit_or kw11_mon kw11_ie) } in
    if-IsQuiet is_kw11 enabled Event (not kw.init_l) _ _ (λ _. q)
      (λ _.
        cancel-IsQuiet is_kw11 enabled Event (not (enabled kw11_vec k)) kw11_vec kw k ic q
          (λ w m ne e. absurd (clock_only w m ne)) (λ off _. ground (arith, off)))

bus_init-Quiet :
    (init_l : Bool) (kw : Kw11) (ic : IntController)
    → Quiet kw ic
    → Quiet (kw11_bus_init init_l kw ic).0 (kw11_bus_init init_l kw ic).1
unfolding kw11_bus_init
bus_init-Quiet true kw ic q =
    change-IsQuiet is_kw11 enabled Event kw (record kw { init_l = true }) ic q (λ v m e. e)
bus_init-Quiet false kw ic q =
    cancel-IsQuiet is_kw11 enabled Event true kw11_vec kw
      (record kw { init_l = false; lks = kw11_mon }) ic q (λ w m ne e. absurd (clock_only w m ne))
      (λ off _. absurd (ground (arith, off)))

Event-Quiet :
    (kw : Kw11) (ic : IntController) (kw' : Kw11) (ic' : IntController)
    → Event kw ic kw' ic'
    → Quiet kw ic
    → Quiet kw' ic'
Event-Quiet _ _ _ _ (tick now kw ic) q = tick-Quiet now kw ic q
Event-Quiet _ _ _ _ (write word kw ic) q = write-Quiet word kw ic q
Event-Quiet _ _ _ _ (bus_init init_l kw ic) q = bus_init-Quiet init_l kw ic q

-- Whatever happens to a clock that starts at some frequency, and to the controller meanwhile, the
-- clock's request is pending only while INT ENB is set.
pub kw11-Pending-enabled :
    (freq_hz : ℕ) (kw : Kw11) (ic : IntController)
    → Reachable is_kw11 enabled Event (kw11_init freq_hz) kw ic
    → Pending ic kw11_vec
    → truthy (bit_and kw.lks kw11_ie) ≡ true
kw11-Pending-enabled freq_hz kw ic r p =
    (Reachable-IsQuiet is_kw11 enabled Event Event-Quiet r).only_on kw11_vec refl p
