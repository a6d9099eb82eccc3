-- ===== src/Prelude/Bits.antt =====
-- `&` and `|` of C at variables: masks as an algebra for simp, and as arithmetic for omega.
use Prim.Native.Nat.{
  ℕ, zero, suc, ◌+◌, ◌-◌, ◌*◌, ◌/◌, ◌%◌, ◌^◌, ◌≤◌, ◌<◌, min, max, bit_and, bit_or, digits,
  bit_and-bitwise, bit_or-bitwise,
}
use mathlib.Core.Path.{◌≡◌, refl, ap, sym, ◌∙◌}
use native.Mathlib.Nat.{pow-suc, one-le-pow, div-div-eq-div-mul}
use native.Mathlib.Omega.{arith}

-- Fuel beyond the first operand changes no digit.
spare_fuel :
    (z : ℕ → ℕ) (f : ℕ → ℕ → ℕ) (n m a b : ℕ) → a ≤ m → m ≤ n → digits z f n a b ≡ digits z f m a b
spare_fuel z f zero zero a b p q = refl
spare_fuel z f (suc n) zero zero b p q = refl
spare_fuel z f (suc n) zero (suc a) b p q = absurd (omega arith)
spare_fuel z f zero (suc m) a b p q = absurd (omega arith)
spare_fuel z f (suc n) (suc m) zero b p q = refl
spare_fuel z f (suc n) (suc m) (suc a) b p q =
    ap (λ t. t * 2 + f (suc a % 2) (b % 2))
      (spare_fuel z f n m (suc a / 2) (b / 2) (omega arith) (omega arith))

-- The lowest digit of each operation, and the rest.
pub and_digit : (a b : ℕ) → bit_and a b ≡ bit_and (a / 2) (b / 2) * 2 + min (a % 2) (b % 2)
and_digit zero b = simp bit_and-bitwise (omega arith)
and_digit (suc a) b = omega (
  arith,
  bit_and-bitwise (suc a) b,
  bit_and-bitwise (suc a / 2) (b / 2),
  spare_fuel (λ t. 0) min a (suc a / 2) (suc a / 2) (b / 2) (omega arith) (omega arith),
)

pub or_digit : (a b : ℕ) → bit_or a b ≡ bit_or (a / 2) (b / 2) * 2 + max (a % 2) (b % 2)
or_digit zero b = simp bit_or-bitwise (omega arith)
or_digit (suc a) b = omega (
  arith,
  bit_or-bitwise (suc a) b,
  bit_or-bitwise (suc a / 2) (b / 2),
  spare_fuel (λ t. t) max a (suc a / 2) (suc a / 2) (b / 2) (omega arith) (omega arith),
)

and_half : (a b : ℕ) → bit_and a b / 2 ≡ bit_and (a / 2) (b / 2)
and_half a b = omega (arith, and_digit a b)

or_half : (a b : ℕ) → bit_or a b / 2 ≡ bit_or (a / 2) (b / 2)
or_half a b = omega (arith, or_digit a b)

and_low : (a b : ℕ) → bit_and a b % 2 ≡ min (a % 2) (b % 2)
and_low a b = omega (arith, and_digit a b)

or_low : (a b : ℕ) → bit_or a b % 2 ≡ max (a % 2) (b % 2)
or_low a b = omega (arith, or_digit a b)

pub zero-bit_and : (a : ℕ) → bit_and 0 a ≡ 0
zero-bit_and a = bit_and-bitwise 0 a

pub zero-bit_or : (a : ℕ) → bit_or 0 a ≡ a
zero-bit_or a = bit_or-bitwise 0 a

-- Two numbers with the same half and the same lowest digit are equal.
join : (x y : ℕ) → x / 2 ≡ y / 2 → x % 2 ≡ y % 2 → x ≡ y
join x y h l = omega arith

bit_and-zero_below : (n a : ℕ) → a ≤ n → bit_and a 0 ≡ 0
bit_and-zero_below n zero h = refl
bit_and-zero_below zero (suc a) h = absurd (omega arith)
bit_and-zero_below (suc n) (suc a) h =
    omega (arith, and_digit (suc a) 0, bit_and-zero_below n (suc a / 2) (omega arith))

pub bit_and-zero : (a : ℕ) → bit_and a 0 ≡ 0
bit_and-zero a = bit_and-zero_below a a (omega arith)

bit_or-zero_below : (n a : ℕ) → a ≤ n → bit_or a 0 ≡ a
bit_or-zero_below n zero h = refl
bit_or-zero_below zero (suc a) h = absurd (omega arith)
bit_or-zero_below (suc n) (suc a) h =
    omega (arith, or_digit (suc a) 0, bit_or-zero_below n (suc a / 2) (omega arith))

pub bit_or-zero : (a : ℕ) → bit_or a 0 ≡ a
bit_or-zero a = bit_or-zero_below a a (omega arith)

-- `(a | b) & c`.
or-and_below : (n a b c : ℕ) → c ≤ n → bit_and (bit_or a b) c ≡ bit_or (bit_and a c) (bit_and b c)
or-and_below n a b zero h = rw (bit_and-zero (bit_or a b), bit_and-zero a, bit_and-zero b)
or-and_below zero a b (suc c) h = absurd (omega arith)
or-and_below (suc n) a b (suc c) h = ground (
  arith,
  and_digit (bit_or a b) (suc c),
  or_digit (bit_and a (suc c)) (bit_and b (suc c)),
  or_half a b,
  or_low a b,
  and_half a (suc c),
  and_half b (suc c),
  and_low a (suc c),
  and_low b (suc c),
  or-and_below n (a / 2) (b / 2) (suc c / 2) (omega arith),
)

pub or-and : (a b c : ℕ) → bit_and (bit_or a b) c ≡ bit_or (bit_and a c) (bit_and b c)
or-and a b c = or-and_below c a b c (omega arith)

-- `(a & b) & c`, with the masks joined.
and-and_below : (n a b c : ℕ) → c ≤ n → bit_and (bit_and a b) c ≡ bit_and a (bit_and b c)
and-and_below n a b zero h = rw (bit_and-zero (bit_and a b), bit_and-zero b, bit_and-zero a)
and-and_below zero a b (suc c) h = absurd (omega arith)
and-and_below (suc n) a b (suc c) h = ground (
  arith,
  and_digit (bit_and a b) (suc c),
  and_digit a (bit_and b (suc c)),
  and_half a b,
  and_low a b,
  and_half b (suc c),
  and_low b (suc c),
  and-and_below n (a / 2) (b / 2) (suc c / 2) (omega arith),
)

pub and-and : (a b c : ℕ) → bit_and (bit_and a b) c ≡ bit_and a (bit_and b c)
and-and a b c = and-and_below c a b c (omega arith)

or-or_below : (n a b c : ℕ) → a ≤ n → bit_or (bit_or a b) c ≡ bit_or a (bit_or b c)
or-or_below n zero b c h = rw (zero-bit_or b, zero-bit_or (bit_or b c))
or-or_below zero (suc a) b c h = absurd (omega arith)
or-or_below (suc n) (suc a) b c h = ground (
  arith,
  or_digit (bit_or (suc a) b) c,
  or_digit (suc a) (bit_or b c),
  or_half (suc a) b,
  or_low (suc a) b,
  or_half b c,
  or_low b c,
  or-or_below n (suc a / 2) (b / 2) (c / 2) (omega arith),
)

pub or-or : (a b c : ℕ) → bit_or (bit_or a b) c ≡ bit_or a (bit_or b c)
or-or a b c = or-or_below a a b c (omega arith)

-- A mask bounds what it lets through.
bit_and-le_below : (n a m : ℕ) → m ≤ n → bit_and a m ≤ m
bit_and-le_below n a zero h = omega (arith, bit_and-zero a)
bit_and-le_below zero a (suc m) h = absurd (omega arith)
bit_and-le_below (suc n) a (suc m) h =
    omega (arith, and_digit a (suc m), bit_and-le_below n (a / 2) (suc m / 2) (omega arith))

pub bit_and-le : (a m : ℕ) → bit_and a m ≤ m
bit_and-le a m = bit_and-le_below m a m (omega arith)

double_mul : (q k : ℕ) → q * 2 ^ suc k ≡ 2 * (q * 2 ^ k)
double_mul q k = omega (arith, ap (λ (t : ℕ). q * t) (pow-suc 2 k))

-- A mask of `k` ones is a remainder.
and_ones_split : (k q r : ℕ) → r < 2 ^ k → bit_and (q * 2 ^ k + r) (2 ^ k - 1) ≡ r
and_ones_split zero q r h = omega (arith, bit_and-zero (q * 1 + r))
and_ones_split (suc k) q r h = ground (
  arith,
  and_digit (q * 2 ^ suc k + r) (2 ^ suc k - 1),
  double_mul q k,
  pow-suc 2 k,
  one-le-pow k 2,
  and_ones_split k q (r / 2),
)

pub bit_and-ones : (k a : ℕ) → bit_and a (2 ^ k - 1) ≡ a % 2 ^ k
bit_and-ones k a = ground (arith, one-le-pow k 2, and_ones_split k (a / 2 ^ k) (a % 2 ^ k))

-- A mask of one bit.
and_bit_split :
    (k q b r : ℕ) → b < 2 → r < 2 ^ k → bit_and ((q * 2 + b) * 2 ^ k + r) (2 ^ k) ≡ b * 2 ^ k
and_bit_split zero q b r hb h =
    omega (arith, and_digit ((q * 2 + b) * 1 + r) 1, bit_and-zero (((q * 2 + b) * 1 + r) / 2))
and_bit_split (suc k) q b r hb h = ground (
  arith,
  and_digit ((q * 2 + b) * 2 ^ suc k + r) (2 ^ suc k),
  double_mul (q * 2 + b) k,
  double_mul b k,
  pow-suc 2 k,
  one-le-pow k 2,
  and_bit_split k q b (r / 2),
)

split_at_bit : (k a : ℕ) → a ≡ (a / 2 ^ k / 2 * 2 + a / 2 ^ k % 2) * 2 ^ k + a % 2 ^ k
split_at_bit k a =
    let q : ℕ = a / 2 ^ k in
    let whole : q / 2 * 2 + q % 2 ≡ q = omega arith in rw whole (omega arith)

pub bit_and-bit : (k a : ℕ) → bit_and a (2 ^ k) ≡ a / 2 ^ k % 2 * 2 ^ k
bit_and-bit k a =
    ap (λ t. bit_and t (2 ^ k)) (split_at_bit k a)
    ∙ and_bit_split k (a / 2 ^ k / 2) (a / 2 ^ k % 2) (a % 2 ^ k) (omega arith)
        (omega (arith, one-le-pow k 2))

-- Fields that do not overlap add up.
pub bit_or-fields : (k q r : ℕ) → r < 2 ^ k → bit_or (q * 2 ^ k) r ≡ q * 2 ^ k + r
bit_or-fields zero q r h = ground (arith, bit_or-zero (q * 1))
bit_or-fields (suc k) q r h =
    ground
      (arith, or_digit (q * 2 ^ suc k) r, double_mul q k, pow-suc 2 k, bit_or-fields k q (r / 2))

pub bit_or-lt : (k a b : ℕ) → a < 2 ^ k → b < 2 ^ k → bit_or a b < 2 ^ k
bit_or-lt zero zero b p q = rw (zero-bit_or b) q
bit_or-lt zero (suc a) b p q = absurd (omega arith)
bit_or-lt (suc k) a b p q = omega (
  arith,
  or_digit a b,
  pow-suc 2 k,
  bit_or-lt k (a / 2) (b / 2) (omega (arith, pow-suc 2 k)) (omega (arith, pow-suc 2 k)),
)

halve : (k a : ℕ) → a / 2 ^ suc k ≡ a / 2 / 2 ^ k
halve k a =
    let twice : 2 ^ suc k ≡ 2 * 2 ^ k = omega (arith, pow-suc 2 k) in
    ap (λ t. a / t) twice ∙ sym (div-div-eq-div-mul a 2 (2 ^ k))

-- A mask above the low `j` bits.
pub bit_and-shifted : (j a m : ℕ) → bit_and a (m * 2 ^ j) ≡ bit_and (a / 2 ^ j) m * 2 ^ j
bit_and-shifted zero a m =
    let same : m * 2 ^ 0 ≡ m = omega arith in
    let all : a / 2 ^ 0 ≡ a = omega arith in rw (same, all) (omega arith)
bit_and-shifted (suc j) a m = rw (halve j a) (
    ground (
      arith,
      and_digit a (m * 2 ^ suc j),
      double_mul m j,
      double_mul (bit_and (a / 2 / 2 ^ j) m) j,
      bit_and-shifted j (a / 2) m,
    ))

-- A line of an `or` is up if it is up in one of the two.
pub bit_or-line : (k a b : ℕ) → bit_or a b / 2 ^ k % 2 ≡ max (a / 2 ^ k % 2) (b / 2 ^ k % 2)
bit_or-line zero a b = omega (arith, or_digit a b)
bit_or-line (suc k) a b =
    rw (halve k (bit_or a b), halve k a, halve k b, or_half a b) (bit_or-line k (a / 2) (b / 2))
