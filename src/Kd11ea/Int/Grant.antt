-- ===== src/Kd11ea/Int/Grant.antt =====
-- The BR lines of a queue, and what `int_pending` grants.
use ll.Prelude.{
  ℕ, zero, suc, ◌+◌, ◌*◌, ◌/◌, ◌%◌, ◌^◌, ◌≤◌, ◌<◌, max, bit_or, ◌≡◌, ◌≢◌, refl, ◌⊎◌, Bool, true,
  false, none, some, List, [], ◌∷◌, arith, ◌==◌, ==_iff, if◌then◌else◌, as_bit, bit, get_elem?,
  all_below, all_below_sound, bit_or-line,
}
use ll.Prelude.Seq.{find_index, Found, find_index-Found}
use ll.Kd11ea.Int.{IntRequest, IntController, has_priority, br_from, arbitrate, int_pending}
use ll.Kd11ea.Int.Arbiter.{highest, arbitrate-eq-highest}

-- A request of that level is queued.
abbrev pub present : ℕ → List IntRequest → Bool
present level [] = false
present level (r ∷ rs) = if r.priority == level then true else present level rs

abbrev pub IsLevel : ℕ → Type 0
IsLevel p = (4 ≤ p) × (p ≤ 7)

abbrev level_agrees : ℕ → Bool
level_agrees x = 2 ^ (x / 8) / 2 ^ (x % 8) % 2 == as_bit (x / 8 == x % 8)

levels_table : all_below 64 level_agrees ≡ true
levels_table = refl

level_line : (p k : ℕ) → IsLevel p → IsLevel k → 2 ^ p / 2 ^ k % 2 ≡ as_bit (p == k)
level_line p k hp hk =
    let x : ℕ = p * 8 + k in
    let row : x / 8 ≡ p = omega arith in
    let column : x % 8 ≡ k = omega arith in
    rw (row, column) at
      ((==_iff _ _).0 (all_below_sound 64 level_agrees x levels_table (omega arith)))

bit-br_from :
    (k br : ℕ) (q : List IntRequest)
    → IsLevel k
    → bit k (br_from br q) ≡ max (bit k br) (as_bit (present k q))
unfolding br_from
bit-br_from k br [] h = omega arith
bit-br_from k br (r ∷ rs) h = ground (
  arith,
  bit-br_from k (bit_or br (2 ^ r.priority)) rs,
  bit-br_from k br rs,
  bit_or-line k br (2 ^ r.priority),
  level_line r.priority k,
)

present-find_index :
    (k : ℕ) (q : List IntRequest) → find_index (has_priority k) q ≡ none → present k q ≡ false
unfolding find_index
present-find_index k [] e = refl
present-find_index k (r ∷ rs) e = ground (arith, present-find_index k rs)

-- The level granted to a queue, 0 for none.
abbrev pub granted : ℕ → List IntRequest → ℕ
granted cpu q = arbitrate cpu (br_from 0 q)

pub granted_lem :
    (cpu : ℕ) (q : List IntRequest)
    → cpu < 8
    → granted cpu q
      ≡ highest cpu
          (as_bit (present 7 q))
          (as_bit (present 6 q))
          (as_bit (present 5 q))
          (as_bit (present 4 q))
granted_lem cpu q h =
    let l7 : bit 7 (br_from 0 q) ≡ as_bit (present 7 q) =
      omega (arith, bit-br_from 7 0 q (omega arith)) in
    let l6 : bit 6 (br_from 0 q) ≡ as_bit (present 6 q) =
      omega (arith, bit-br_from 6 0 q (omega arith)) in
    let l5 : bit 5 (br_from 0 q) ≡ as_bit (present 5 q) =
      omega (arith, bit-br_from 5 0 q (omega arith)) in
    let l4 : bit 4 (br_from 0 q) ≡ as_bit (present 4 q) =
      omega (arith, bit-br_from 4 0 q (omega arith)) in
    rw (arbitrate-eq-highest cpu (br_from 0 q) h, l7, l6, l5, l4)

pub level_cases : (p : ℕ) → IsLevel p → (p ≡ 7) ⊎ ((p ≡ 6) ⊎ ((p ≡ 5) ⊎ (p ≡ 4)))
level_cases p h = grind arith

granted_bounds :
    (cpu : ℕ) (q : List IntRequest)
    → cpu < 8
    → granted cpu q ≢ 0
    → (cpu < granted cpu q) × IsLevel (granted cpu q)
granted_bounds cpu q h ne = ground (arith, granted_lem cpu q h)

granted_highest :
    (cpu p : ℕ) (q : List IntRequest)
    → cpu < 8
    → IsLevel p
    → cpu < p
    → present p q ≡ true
    → p ≤ granted cpu q
granted_highest cpu p q h hp lt here = ground (arith, granted_lem cpu q h, level_cases p)

granted-present :
    (cpu : ℕ) (q : List IntRequest) → cpu < 8 → granted cpu q ≢ 0 → present (granted cpu q) q ≡ true
granted-present cpu q h ne = ground (arith, granted_lem cpu q h)

present-at :
    (k j : ℕ) (q : List IntRequest) (r : IntRequest)
    → get_elem? q j ≡ some r
    → r.priority ≡ k
    → present k q ≡ true
present-at k j [] r at e = cc
present-at k zero (x ∷ xs) r at e = ground arith
present-at k (suc j) (x ∷ xs) r at e = ground (arith, present-at k j xs r at e)

granted_top :
    (cpu j : ℕ) (q : List IntRequest) (s : IntRequest)
    → cpu < 8
    → granted cpu q ≢ 0
    → get_elem? q j ≡ some s
    → s.priority ≤ 7
    → s.priority ≤ granted cpu q
granted_top cpu j q s h ne there fits = ground (
  arith,
  granted_bounds cpu q h ne,
  granted_highest cpu s.priority q h,
  present-at s.priority j q s there refl,
)

-- Request `i` of the queue is the one to serve: above the processor's priority, of the highest
-- level queued, and the first of that level.
pub record IsGranted (cpu : ℕ) (q : List IntRequest) (i : ℕ) (r : IntRequest) : Type 0 where
  pub at : get_elem? q i ≡ some r
  pub above : cpu < r.priority
  pub line : r.priority ≤ 7
  pub top :
      (j : ℕ) (s : IntRequest) → get_elem? q j ≡ some s → s.priority ≤ 7 → s.priority ≤ r.priority
  pub first : (j : ℕ) (s : IntRequest) → j < i → get_elem? q j ≡ some s → s.priority ≢ r.priority

granted_index :
    (ic : IntController) (cpu i : ℕ)
    → int_pending ic cpu ≡ some i
    → (granted cpu ic.queue ≢ 0)
      × (find_index (has_priority (granted cpu ic.queue)) ic.queue ≡ some i)
unfolding int_pending
granted_index ic cpu i e = ground arith

-- What `int_pending` finds is the request to serve.
pub int_pending-IsGranted :
    (ic : IntController) (cpu i : ℕ)
    → cpu < 8
    → int_pending ic cpu ≡ some i
    → (r : IntRequest) × IsGranted cpu ic.queue i r
int_pending-IsGranted ic cpu i h e =
    let q : List IntRequest = ic.queue in
    let g : ℕ = granted cpu q in
    let (ne, found) = granted_index ic cpu i e in
    let f : Found (has_priority g) q i = find_index-Found (has_priority g) q i found in
    let level : f.item.priority ≡ g = (==_iff _ _).0 f.passes in
    let (above, fits) = granted_bounds cpu q h ne in
    (
      f.item,
      record {
        at = f.at;
        above = omega arith;
        line = omega arith;
        top = λ j s there fits. omega (arith, granted_top cpu j q s h ne there fits);
        first = λ j s lt there. ground (arith, f.first j s lt there);
      },
    )

no_index :
    (ic : IntController) (cpu : ℕ)
    → int_pending ic cpu ≡ none
    → (granted cpu ic.queue ≡ 0)
      ⊎ (find_index (has_priority (granted cpu ic.queue)) ic.queue ≡ none)
unfolding int_pending
no_index ic cpu e = ground arith

-- With nothing to serve, no queued level is above the processor's priority.
pub int_pending-none :
    (ic : IntController) (cpu j : ℕ) (s : IntRequest)
    → cpu < 8
    → int_pending ic cpu ≡ none
    → get_elem? ic.queue j ≡ some s
    → IsLevel s.priority
    → s.priority ≤ cpu
int_pending-none ic cpu j s h e there level = ground (
  arith,
  no_index ic cpu e,
  present-find_index (granted cpu ic.queue) ic.queue,
  granted-present cpu ic.queue h,
  granted_highest cpu s.priority ic.queue h level,
  present-at s.priority j ic.queue s there refl,
)
