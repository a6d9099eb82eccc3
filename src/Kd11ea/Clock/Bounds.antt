-- ===== src/Kd11ea/Clock/Bounds.antt =====
-- How long a cycle lasts (`clockgen_cycle_ns` of pdp11/kd11ea/clockgen.c).
use ll.Prelude.{ℕ, ◌+◌, ◌≤◌, Bool, arith, leb, if◌then◌else◌}
use ll.Kd11ea.Clock.{ClockTiming, clockgen_msyn_ns, clockgen_cycle_ns, grant_end}

-- A cycle lasts at least the period of the clock; one with a transfer ends after the slave's reply
-- and one with a service after the grant; and it is no longer than these together.
pub clockgen_cycle_ns_bounds :
    (p : ClockTiming) (period ssyn bus_ctl : ℕ) (transfer but_service intr : Bool)
    → let cycle = clockgen_cycle_ns p period transfer bus_ctl ssyn but_service intr in
      let reply =
        clockgen_msyn_ns p period
        + ssyn
        + (if leb bus_ctl 1 then p.read_eot_ns else p.write_ack_ns)
        + p.restart_ns in
      (period ≤ cycle)
      × ((if transfer then reply else 0) ≤ cycle)
      × ((if but_service then grant_end p intr else 0) ≤ cycle)
      × (cycle
          ≤ period
            + (if transfer then reply else 0)
            + (if but_service then grant_end p intr else 0))
unfolding clockgen_cycle_ns clockgen_msyn_ns
clockgen_cycle_ns_bounds p period ssyn bus_ctl transfer but_service intr = ground arith
