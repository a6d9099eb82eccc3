-- ===== src/Prelude/Cases.antt =====
-- A predicate on the numbers below a bound from its cases.
use Prim.Native.Nat.{ℕ, suc, ◌<◌}
use mathlib.Core.Path.{◌≡◌, sym, subst}
use mathlib.Core.Logic.{◌⊎◌, inl, inr}
use native.Mathlib.Omega.{arith}

snoc : (P : ℕ → Type 0) (n : ℕ) → ((k : ℕ) → k < n → P k) → P n → (k : ℕ) → k < suc n → P k
snoc P n f p k h =
    let split : (k ≡ n) ⊎ (k < n) = omega arith in
    elim split [ inl e ↦ subst P (sym e) p | inr lt ↦ f k lt ]

pub eight : (P : ℕ → Type 0) → P 0 → P 1 → P 2 → P 3 → P 4 → P 5 → P 6 → P 7 → (k : ℕ) → k < 8 → P k
eight P a b c d e f g h =
    snoc P 7
      (snoc P 6
        (snoc P 5
          (snoc P 4
            (snoc P 3 (snoc P 2 (snoc P 1 (snoc P 0 (λ x y. absurd (omega arith)) a) b) c) d) e)
          f)
        g)
      h

pub sixteen :
    (P : ℕ → Type 0)
    → P 0
    → P 1
    → P 2
    → P 3
    → P 4
    → P 5
    → P 6
    → P 7
    → P 8
    → P 9
    → P 10
    → P 11
    → P 12
    → P 13
    → P 14
    → P 15
    → (k : ℕ) → k < 16
    → P k
sixteen P a b c d e f g h i j k l m n o p =
    let low = eight P a b c d e f g h in
    snoc P 15
      (snoc P 14
        (snoc P 13 (snoc P 12 (snoc P 11 (snoc P 10 (snoc P 9 (snoc P 8 low i) j) k) l) m) n) o)
      p
