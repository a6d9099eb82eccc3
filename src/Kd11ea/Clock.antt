-- ===== src/Kd11ea/Clock.antt =====
-- The clock and the timing of the bus (pdp11/kd11ea/clockgen.c and clockgen.h). The name of a
-- timing is left out, and a null pointer is the nominal timing.
pub mod Bounds
use ll.Prelude.{ℕ, ◌+◌, ◌/◌, Bool, ◌&&◌, ◌||◌, not, leb, ltb, ◌==◌, if◌then◌else◌}

pub record ClockTiming : Type 0 where
  pub short_ns : ℕ
  pub long_ns : ℕ
  pub msyn_rc_ns : ℕ
  pub msyn_logic_ns : ℕ
  pub read_eot_ns : ℕ
  pub write_ack_ns : ℕ
  pub grant_rc_ns : ℕ
  pub grant_logic_ns : ℕ
  pub restart_ns : ℕ
  pub sack_rc_ns : ℕ
  pub device_intr_ns : ℕ
  pub reset_ns : ℕ

unfoldable pub clock_nominal : ClockTiming
clock_nominal = record {
  short_ns = 180;
  long_ns = 240;
  msyn_rc_ns = 170;
  msyn_logic_ns = 38;
  read_eot_ns = 100;
  write_ack_ns = 28;
  grant_rc_ns = 200;
  grant_logic_ns = 84;
  restart_ns = 51;
  sack_rc_ns = 100;
  device_intr_ns = 150;
  reset_ns = 100000000;
}

unfoldable pub clock_aged : ClockTiming
clock_aged = record {
  short_ns = 189;
  long_ns = 251;
  msyn_rc_ns = 170;
  msyn_logic_ns = 38;
  read_eot_ns = 115;
  write_ack_ns = 35;
  grant_rc_ns = 134;
  grant_logic_ns = 84;
  restart_ns = 51;
  sack_rc_ns = 100;
  device_intr_ns = 150;
  reset_ns = 74500000;
}

-- Two cases for the tests of the tolerances.
unfoldable pub clock_aged_low : ClockTiming
unfolding clock_aged
clock_aged_low = record clock_aged {
  short_ns = 190;
  long_ns = 240;
  read_eot_ns = 100;
  write_ack_ns = 28;
  grant_rc_ns = 180;
  grant_logic_ns = 0;
  restart_ns = 30;
  sack_rc_ns = 90;
  device_intr_ns = 0;
}

unfoldable pub clock_aged_high : ClockTiming
unfolding clock_aged
clock_aged_high = record clock_aged {
  short_ns = 190;
  long_ns = 240;
  read_eot_ns = 100;
  write_ack_ns = 28;
  grant_rc_ns = 220;
  grant_logic_ns = 143;
  restart_ns = 65;
  sack_rc_ns = 110;
  device_intr_ns = 300;
}

unfoldable pub clockgen_period_ns : ClockTiming → Bool → Bool → Bool → ℕ
clockgen_period_ns p long_cycle_l load_ba relocate =
    if not long_cycle_l || (load_ba && relocate) then p.long_ns else p.short_ns

unfoldable pub clockgen_msyn_ns : ClockTiming → ℕ → ℕ
clockgen_msyn_ns p period_ns = period_ns / 2 + p.msyn_rc_ns + p.msyn_logic_ns

abbrev pub later : ℕ → ℕ → ℕ
later end duration = if ltb duration end then end else duration

-- The end of a grant, with the interrupt of the device.
abbrev pub grant_end : ClockTiming → Bool → ℕ
grant_end p intr =
    p.grant_rc_ns
    + p.grant_logic_ns
    + p.restart_ns
    + (if intr then p.device_intr_ns + p.sack_rc_ns else 0)

unfoldable pub clockgen_cycle_ns : ClockTiming → ℕ → Bool → ℕ → ℕ → Bool → Bool → ℕ
unfolding clockgen_msyn_ns
clockgen_cycle_ns p period_ns transfer bus_ctl ssyn_ns but_service intr =
    let granted = if but_service then later (grant_end p intr) period_ns else period_ns in
    if transfer
    then later
        (clockgen_msyn_ns p period_ns
          + ssyn_ns
          + (if leb bus_ctl 1 then p.read_eot_ns else p.write_ack_ns)
          + p.restart_ns)
        granted
    else granted
