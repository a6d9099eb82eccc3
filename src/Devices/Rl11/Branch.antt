-- ===== src/Devices/Rl11/Branch.antt =====
-- What the branches of the code of the RL11 (pdp11/rl11/rl11.c) all have, its outcome has.
use ll.Prelude.{◌≡◌, refl, Bool, true, false, Option, none, some, if◌then◌else◌}

pub branch {ℓ} :
    {A : Type ℓ} (P : A → Type 0) (b : Bool) (x y : A)
    → (b ≡ true → P x)
    → (b ≡ false → P y)
    → P (if b then x else y)
branch P true x y hx hy = hx refl
branch P false x y hx hy = hy refl

pub branch_option {ℓ κ} :
    {A : Type ℓ} {B : Type κ} (P : B → Type 0) (found : Option A) (x : B) (y : A → B)
    → P x
    → ((a : A) → P (y a))
    → P (elim found [ none ↦ x | some a ↦ y a ])
branch_option P none x y hx hy = hx
branch_option P (some a) x y hx hy = hy a
