-- ===== src/Kd11ea/Alu/Exact.antt =====
-- The arithmetic of the 74S181 slices (pdp11/kd11ea/kd11ea.h): no carry is lost, and the functions
-- that the instructions use are the sum and the difference.
use ll.Prelude.{
  ℕ, ◌+◌, ◌*◌, ◌^◌, ◌<◌, ◌≡◌, ap, ◌∙◌, arith, Bool, true, false, truthy, if◌then◌else◌, bit_and,
  bit_or, bit_and-le, bit_and-ones, bit_or-lt, ◌==◌,
}
use ll.Kd11ea.Alu.{alu_74s181, alu_74s181_arith, inverted}

if-lt : (b : Bool) (x y n : ℕ) → x < n → y < n → (if b then x else y) < n
if-lt true x y n hx hy = hx
if-lt false x y n hx hy = hy

either-lt : (s k x y : ℕ) → x < 2 ^ 17 → y < 2 ^ 17 → (if s == k then x else y) < 2 ^ 17
either-lt s k x y hx hy = if-lt (s == k) x y (2 ^ 17) hx hy

-- Every arithmetic function fits in seventeen bits.
pub alu_74s181_arith-lt : (a b s cin : ℕ) → alu_74s181_arith a b s cin 0xffff < 2 ^ 17
unfolding alu_74s181_arith
alu_74s181_arith-lt a b s cin =
    let aa = bit_and a 0xffff in
    let bb = bit_and b 0xffff in
    let nb = inverted 0xffff bb in
    let c : ℕ = if truthy cin then 1 else 0 in
    let ha : aa < 2 ^ 16 = omega (arith, bit_and-le a 0xffff) in
    let hb : bb < 2 ^ 16 = omega (arith, bit_and-le b 0xffff) in
    let hn : nb < 2 ^ 16 = omega arith in
    let ho : bit_or aa bb < 2 ^ 16 = bit_or-lt 16 aa bb ha hb in
    let hp : bit_or aa nb < 2 ^ 16 = bit_or-lt 16 aa nb ha hn in
    let hq : bit_and aa nb < 2 ^ 16 = omega (arith, bit_and-le aa nb) in
    let hr : bit_and aa bb < 2 ^ 16 = omega (arith, bit_and-le aa bb) in
    let hc : c < 2 = if-lt (truthy cin) 1 0 2 (omega arith) (omega arith) in
    either-lt s 0 (aa + c) _ (omega arith) (
      either-lt s 1 (bit_or aa bb + c) _ (omega arith) (
        either-lt s 2 (bit_or aa nb + c) _ (omega arith) (
          either-lt s 3 (0xffff + c) _ (omega arith) (
            either-lt s 4 (aa + bit_and aa nb + c) _ (omega arith) (
              either-lt s 5 (bit_or aa bb + bit_and aa nb + c) _ (omega arith) (
                either-lt s 6 (aa + nb + c) _ (omega arith) (
                  either-lt s 7 (bit_and aa nb + 0xffff + c) _ (omega arith) (
                    either-lt s 8 (aa + bit_and aa bb + c) _ (omega arith) (
                      either-lt s 9 (aa + bb + c) _ (omega arith) (
                        either-lt s 10 (bit_or aa nb + bit_and aa bb + c) _ (omega arith) (
                          either-lt s 11 (bit_and aa bb + 0xffff + c) _ (omega arith) (
                            either-lt s 12 (aa + aa + c) _ (omega arith) (
                              either-lt s 13 (bit_or aa bb + aa + c) _ (omega arith) (
                                either-lt s 14 (bit_or aa nb + aa + c) _ (omega arith) (
                                  either-lt s 15 (aa + 0xffff + c) _ (omega arith)
                                    (omega arith))))))))))))))))

-- The seventeen bits are the result and the carry.
pub alu_74s181-exact :
    (a b s cin : ℕ)
    → let r = alu_74s181 a b s 0 cin in r.1 * 2 ^ 16 + r.0 ≡ alu_74s181_arith a b s cin 0xffff
unfolding alu_74s181
alu_74s181-exact a b s cin = omega (arith, alu_74s181_arith-lt a b s cin)

below_word : (a : ℕ) → a < 2 ^ 16 → bit_and a 0xffff ≡ a
below_word a h = omega (arith, bit_and-ones 16 a)

carry_in : (cin : ℕ) → cin < 2 → (if truthy cin then 1 else 0) ≡ cin
carry_in cin h = ground arith

-- The functions 1001, 0110, 0000 and 1111 on two words are, with the carry as the seventeenth
-- bit: the sum with the carry in; the sum with the complement of B, so that with a carry in it is
-- A minus B and the carry out tells that nothing was borrowed; A with the carry in; and A plus
-- all ones, so that without a carry in it is A minus one.
pub alu_74s181-functions :
    (a b cin : ℕ)
    → a < 2 ^ 16
    → b < 2 ^ 16
    → cin < 2
    → let value = λ (s : ℕ). (let r = alu_74s181 a b s 0 cin in r.1 * 2 ^ 16 + r.0) in
      (value 9 ≡ a + b + cin)
      × (value 6 + b ≡ a + 0xffff + cin)
      × (value 0 ≡ a + cin)
      × (value 15 ≡ a + 0xffff + cin)
unfolding alu_74s181_arith
alu_74s181-functions a b cin ha hb hc =
    let e = λ (s : ℕ). alu_74s181-exact a b s cin in
    let pa = below_word a ha in
    let pb = below_word b hb in
    let pc = carry_in cin hc in
    let pbb = ap (λ x. bit_and x 0xffff) pb ∙ pb in
    (
      omega (arith, e 9, pa, pb, pc),
      omega (arith, e 6, pa, pb, pbb, pc),
      omega (arith, e 0, pa, pc),
      omega (arith, e 15, pa, pc),
    )
