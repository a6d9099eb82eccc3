-- ===== src/Kd11ea/Micro/Gates.antt =====
-- The gates that abort a bus cycle (pdp11/kd11ea/bus_wiring.h). A line is a Boolean, true when high.
use ll.Prelude.{Bool, true, ◌&&◌, ◌||◌, not, ◌≡◌, refl, arith}

unfoldable pub k2_4_disable_msyn_plus1_l : Bool → Bool → Bool → Bool
k2_4_disable_msyn_plus1_l disab_msyn_l r6_7_l bdt =
    let e38_9 = r6_7_l in
    let e95_13 = not (e38_9 || bdt) in let e20_13 = not (e95_13 || disab_msyn_l) in not e20_13

pub record K2BusAbort : Type 0 where
  pub inhibit_msyn : Bool
  pub abort_h : Bool
  pub set_be_l : Bool

unfoldable pub k2_1_bus_abort : Bool → Bool → Bool → Bool → Bool → Bool → K2BusAbort
k2_1_bus_abort disable_msyn_plus1_l kt_fault_l clk_msyn_h enab_abort_h parity_h to_h =
    let inhibit_msyn = not (disable_msyn_plus1_l && kt_fault_l) in
    let e40_8 = not (clk_msyn_h && enab_abort_h && inhibit_msyn) in
    let e23_1 = not (parity_h || to_h) in
    let abort_h = not (e40_8 && e23_1) in
    let e42_11 = not (disable_msyn_plus1_l && not to_h) in
    record { inhibit_msyn = inhibit_msyn; abort_h = abort_h; set_be_l = not (abort_h && e42_11) }

unfoldable pub k2_3_dbe_h : Bool → Bool → Bool
k2_3_dbe_h set_be_l enab_dbe_l = not (set_be_l || enab_dbe_l)

-- A transfer is aborted by an odd address, a fault of memory management, a parity error or a
-- timeout, the first two with aborts enabled; it sets BE unless memory management or parity alone
-- aborts it.
pub k2_1_bus_abort_lem :
    (odd kt_fault enab_abort parity to : Bool)
    → let w = k2_1_bus_abort (not odd) (not kt_fault) true enab_abort parity to in
      (w.abort_h ≡ (enab_abort && (odd || kt_fault) || (parity || to)))
      × (w.set_be_l ≡ not (w.abort_h && (odd || to)))
unfolding k2_1_bus_abort
k2_1_bus_abort_lem true true true true true = (refl, refl)
k2_1_bus_abort_lem odd kt_fault enab_abort parity to = ground arith
