-- ===== src/Prelude/Masks.antt =====
-- Fields put together in either order, and C's tests of masks as a set of rules.
use Prim.Native.Nat.{ℕ, zero, suc, ◌+◌, ◌*◌, ◌/◌, ◌^◌, ◌≤◌, ◌<◌, bit_and, bit_or}
use mathlib.Core.Path.{◌≡◌, sym, ◌∙◌}
use native.Mathlib.Omega.{arith}
use ll.Prelude.Bits.{
  or_digit, zero-bit_or, bit_or-zero, zero-bit_and, bit_and-zero, bit_or-fields, or-and, and-and,
}

bit_or_comm_below : (n a b : ℕ) → a ≤ n → bit_or a b ≡ bit_or b a
bit_or_comm_below n zero b h = zero-bit_or b ∙ sym (bit_or-zero b)
bit_or_comm_below zero (suc a) b h = absurd (omega arith)
bit_or_comm_below (suc n) (suc a) b h = omega (
  arith,
  or_digit (suc a) b,
  or_digit b (suc a),
  bit_or_comm_below n (suc a / 2) (b / 2) (omega arith),
)

pub bit_or_comm : (a b : ℕ) → bit_or a b ≡ bit_or b a
bit_or_comm a b = bit_or_comm_below a a b (omega arith)

-- A field put above the others.
pub bit_or-above : (k r q : ℕ) → r < 2 ^ k → bit_or r (q * 2 ^ k) ≡ q * 2 ^ k + r
bit_or-above k r q h = bit_or_comm r (q * 2 ^ k) ∙ bit_or-fields k q r h

-- C reads a test of a mask through these: masks are joined, and constants computed.
pub ruleset masks = (or-and, and-and, bit_and-zero, bit_or-zero, zero-bit_and, zero-bit_or)

insert_bit : (r d : ℕ) → bit_and (bit_or (bit_and r 0xffbf) (bit_and d 0x40)) 0x80 ≡ bit_and r 0x80
insert_bit r d = simp masks
