-- ===== src/Unibus/Ram/Timing.antt =====
-- The refresh loop of `ram_response` ends, and the cycle waits for what is under way.
use ll.Prelude.{
  ℕ, zero, suc, ◌+◌, ◌*◌, ◌≤◌, ◌<◌, ◌≡◌, refl, ◌∙◌, inl, inr, true, false, arith, Bool-cases,
}
use ll.Unibus.Ram.{Ram, Waiting, refresh, refresh_due, refresh_loop, rounds}

-- Refreshes are shorter than the interval between them.
abbrev pub KeepsUp : Ram → Type 0
KeepsUp r = r.refresh_ns < r.refresh_interval_ns

-- What the loop keeps and reaches, from `w` to `w'`.
pub record IsRefreshed (w w' : Waiting) : Type 0 where
  pub done : refresh_due w' ≡ false
  pub not_before : w.start ≤ w'.start
  pub busy_over : w'.ram.busy_until_ns ≤ w'.start
  pub none_skipped :
      w'.ram.next_refresh_ns + w.ram.refresh_count * w.ram.refresh_interval_ns
      ≡ w.ram.next_refresh_ns + w'.ram.refresh_count * w.ram.refresh_interval_ns
  pub same_interval : w'.ram.refresh_interval_ns ≡ w.ram.refresh_interval_ns
  pub same_cycle : w'.ram.cycle_ns ≡ w.ram.cycle_ns

-- One round brings the loop nearer to its end.
refresh_round :
    (w : Waiting)
    → KeepsUp w.ram
    → w.ram.busy_until_ns ≤ w.start
    → refresh_due w ≡ true
    → (rounds (refresh w) < rounds w)
      × (w.start ≤ (refresh w).start)
      × ((refresh w).ram.busy_until_ns ≤ (refresh w).start)
unfolding refresh
refresh_round w k b due = ground arith

refresh_fields :
    (w : Waiting)
    → ((refresh w).ram.next_refresh_ns ≡ w.ram.next_refresh_ns + w.ram.refresh_interval_ns)
      × ((refresh w).ram.refresh_count ≡ w.ram.refresh_count + 1)
      × ((refresh w).ram.refresh_interval_ns ≡ w.ram.refresh_interval_ns)
      × ((refresh w).ram.refresh_ns ≡ w.ram.refresh_ns)
      × ((refresh w).ram.cycle_ns ≡ w.ram.cycle_ns)
unfolding refresh
refresh_fields w = (refl, refl, refl, refl, refl)

IsRefreshed-step :
    (w w' : Waiting) → w.start ≤ (refresh w).start → IsRefreshed (refresh w) w' → IsRefreshed w w'
IsRefreshed-step w w' later rest =
    let (n, c, i, _, cy) = refresh_fields w in
    record {
      done = rest.done;
      not_before = omega (arith, later, rest.not_before);
      busy_over = rest.busy_over;
      none_skipped = omega (arith, rw (n, c, i) at rest.none_skipped);
      same_interval = rest.same_interval ∙ i;
      same_cycle = rest.same_cycle ∙ cy;
    }

-- The loop ends by its test within the rounds counted, and skips no refresh.
pub refresh_loop-IsRefreshed :
    (fuel : ℕ) (w : Waiting)
    → KeepsUp w.ram
    → w.ram.busy_until_ns ≤ w.start
    → rounds w ≤ fuel
    → IsRefreshed w (refresh_loop fuel w)
unfolding refresh_loop
refresh_loop-IsRefreshed zero w k b h = ground arith
refresh_loop-IsRefreshed (suc fuel) w k b h = elim (Bool-cases (refresh_due w)) [
  | inl due ↦
      let (nearer, later, over) = refresh_round w k b due in
      let rest : IsRefreshed (refresh w) (refresh_loop fuel (refresh w)) =
        refresh_loop-IsRefreshed fuel (refresh w) (ground (arith, refresh_fields w)) over
          (omega (arith, nearer, h)) in
      rw due (IsRefreshed-step w (refresh_loop fuel (refresh w)) later rest)
  | inr over ↦ rw over (record {
    done = over;
    not_before = omega arith;
    busy_over = b;
    none_skipped = refl;
    same_interval = refl;
    same_cycle = refl;
  })
]
