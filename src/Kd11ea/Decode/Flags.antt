-- ===== src/Kd11ea/Decode/Flags.antt =====
-- E107 against the arithmetic that its condition codes describe.
use ll.Prelude.{
  ℕ, ◌+◌, ◌-◌, ◌*◌, ◌/◌, ◌%◌, ◌^◌, ◌<◌, ◌≡◌, refl, ◌∙◌, Bool, true, false, ◌&&◌, ◌||◌, not, [], ◌∷◌,
  arith, leb, ltb, ◌==◌, ==_iff, and_true, if◌then◌else◌, as_bit, bit, get_or, all_below,
  all_below_sound,
}
use ll.Kd11ea.Decode.{e107_data, e107_cc_v, e107_cc_c}

-- The two flags by CC CODE, from the signs of the result, the source and the destination: none,
-- set C, increment, decrement, subtract, add, rotate, clear V.
abbrev pub v_flag : ℕ → ℕ → ℕ → ℕ → ℕ → ℕ
v_flag r s d rot code =
    get_or
      (0
        ∷ 0
        ∷ as_bit (s == 0 && r == 1)
        ∷ as_bit (s == 1 && r == 0)
        ∷ as_bit (not (s == d) && r == d)
        ∷ as_bit (s == d && not (r == s))
        ∷ as_bit (not (r == rot))
        ∷ 0
        ∷ [])
      code 0

abbrev pub c_flag : ℕ → ℕ → ℕ → ℕ → ℕ → ℕ → ℕ
c_flag r s d rot c code =
    get_or
      (0
        ∷ 1
        ∷ c
        ∷ c
        ∷ as_bit ((s == 0 && d == 1) || (s == d && r == 1))
        ∷ as_bit ((s == 1 && d == 1) || (not (s == d) && r == 0))
        ∷ rot
        ∷ c
        ∷ [])
      code 0

abbrev agrees : ℕ → Bool
agrees x =
    let out = e107_data (bit 7 x) (bit 6 x) (bit 5 x) (bit 4 x) (bit 3 x) (x % 8) in
    e107_cc_v out == v_flag (bit 7 x) (bit 6 x) (bit 5 x) (bit 4 x) (x % 8)
    && e107_cc_c out == c_flag (bit 7 x) (bit 6 x) (bit 5 x) (bit 4 x) (bit 3 x) (x % 8)

table : all_below 256 agrees ≡ true
unfolding e107_data e107_cc_v e107_cc_c
table = refl

entry :
    (x : ℕ)
    → x < 256
    → let out = e107_data (bit 7 x) (bit 6 x) (bit 5 x) (bit 4 x) (bit 3 x) (x % 8) in
      (e107_cc_v out ≡ v_flag (bit 7 x) (bit 6 x) (bit 5 x) (bit 4 x) (x % 8))
      × (e107_cc_c out ≡ c_flag (bit 7 x) (bit 6 x) (bit 5 x) (bit 4 x) (bit 3 x) (x % 8))
entry x h =
    let (v, c) = and_true _ _ (all_below_sound 256 agrees x table h) in
    ((==_iff _ _).0 v, (==_iff _ _).0 c)

pub e107_data-flags :
    (r s d rot c code : ℕ)
    → r < 2
    → s < 2
    → d < 2
    → rot < 2
    → c < 2
    → code < 8
    → (e107_cc_v (e107_data r s d rot c code) ≡ v_flag r s d rot code)
      × (e107_cc_c (e107_data r s d rot c code) ≡ c_flag r s d rot c code)
e107_data-flags r s d rot c code hr hs hd ho hc hk =
    let x : ℕ = r * 2 ^ 7 + s * 2 ^ 6 + d * 2 ^ 5 + rot * 2 ^ 4 + c * 2 ^ 3 + code in
    let e7 : bit 7 x ≡ r = omega arith in
    let e6 : bit 6 x ≡ s = omega arith in
    let e5 : bit 5 x ≡ d = omega arith in
    let e4 : bit 4 x ≡ rot = omega arith in
    let e3 : bit 3 x ≡ c = omega arith in
    let e0 : x % 8 ≡ code = omega arith in rw (e7, e6, e5, e4, e3, e0) at (entry x (omega arith))

-- The weight of the sign, of a byte or of a word, and the number that a pattern stands for, with
-- that weight added.
abbrev pub weight : Bool → ℕ
weight byte = if byte then 2 ^ 7 else 2 ^ 15

abbrev pub sign : Bool → ℕ → ℕ
sign byte x = x / weight byte % 2

abbrev pub offset : Bool → ℕ → ℕ
offset byte x = (x + weight byte) % (2 * weight byte)

-- Differences and sums of the numbers that lie outside the range of one byte or word.
abbrev pub difference_overflows : Bool → ℕ → ℕ → Bool
difference_overflows byte s d =
    ltb (offset byte s + weight byte) (offset byte d)
    || leb (offset byte d + weight byte) (offset byte s)

abbrev pub sum_overflows : Bool → ℕ → ℕ → Bool
sum_overflows byte s d =
    ltb (offset byte s + offset byte d) (weight byte)
    || leb (3 * weight byte) (offset byte s + offset byte d)

abbrev pub difference : Bool → ℕ → ℕ → ℕ
difference byte s d = (s + 2 * weight byte - d) % (2 * weight byte)

abbrev pub sum : Bool → ℕ → ℕ → ℕ
sum byte s d = (s + d) % (2 * weight byte)

sign-lt : (byte : Bool) (x : ℕ) → sign byte x < 2
sign-lt byte x = omega arith

subtract-overflow_byte :
    (s d : ℕ)
    → s < 2 * weight true
    → d < 2 * weight true
    → let r = sign true (difference true s d) in
      v_flag r (sign true s) (sign true d) 0 4 ≡ as_bit (difference_overflows true s d)
subtract-overflow_byte s d hs hd = ground arith

subtract-overflow_word :
    (s d : ℕ)
    → s < 2 * weight false
    → d < 2 * weight false
    → let r = sign false (difference false s d) in
      v_flag r (sign false s) (sign false d) 0 4 ≡ as_bit (difference_overflows false s d)
subtract-overflow_word s d hs hd = ground arith

subtract-borrow_byte :
    (s d : ℕ)
    → s < 2 * weight true
    → d < 2 * weight true
    → let r = sign true (difference true s d) in
      c_flag r (sign true s) (sign true d) 0 0 4 ≡ as_bit (ltb s d)
subtract-borrow_byte s d hs hd = ground arith

subtract-borrow_word :
    (s d : ℕ)
    → s < 2 * weight false
    → d < 2 * weight false
    → let r = sign false (difference false s d) in
      c_flag r (sign false s) (sign false d) 0 0 4 ≡ as_bit (ltb s d)
subtract-borrow_word s d hs hd = ground arith

add-flags :
    (byte : Bool) (s d : ℕ)
    → s < 2 * weight byte
    → d < 2 * weight byte
    → let r = sign byte (sum byte s d) in
      (v_flag r (sign byte s) (sign byte d) 0 5 ≡ as_bit (sum_overflows byte s d))
      × (c_flag r (sign byte s) (sign byte d) 0 0 5 ≡ as_bit (leb (2 * weight byte) (s + d)))
add-flags true s d hs hd = ground arith
add-flags false s d hs hd = ground arith

subtract-flags :
    (byte : Bool) (s d : ℕ)
    → s < 2 * weight byte
    → d < 2 * weight byte
    → let r = sign byte (difference byte s d) in
      (v_flag r (sign byte s) (sign byte d) 0 4 ≡ as_bit (difference_overflows byte s d))
      × (c_flag r (sign byte s) (sign byte d) 0 0 4 ≡ as_bit (ltb s d))
subtract-flags true s d hs hd = (subtract-overflow_byte s d hs hd, subtract-borrow_byte s d hs hd)
subtract-flags false s d hs hd = (subtract-overflow_word s d hs hd, subtract-borrow_word s d hs hd)

step-flags :
    (byte : Bool) (s d : ℕ)
    → s < 2 * weight byte
    → (v_flag (sign byte (sum byte s 1)) (sign byte s) d 0 2 ≡ as_bit (s == weight byte - 1))
      × (v_flag (sign byte (difference byte s 1)) (sign byte s) d 0 3 ≡ as_bit (s == weight byte))
step-flags true s d hs = ground arith
step-flags false s d hs = ground arith

-- The flags that E107 gives for two bytes or two words. After a subtraction C is the borrow and V
-- tells that the signed difference is out of range; after an addition C is the carry and V tells
-- that the signed sum is out of range; increment and decrement keep C, and set V at the greatest
-- and the least number.
pub e107_data-arithmetic :
    (byte : Bool) (s d rot c : ℕ)
    → s < 2 * weight byte
    → d < 2 * weight byte
    → rot < 2
    → c < 2
    → let sub = e107_data (sign byte (difference byte s d)) (sign byte s) (sign byte d) rot c 4 in
      let add = e107_data (sign byte (sum byte s d)) (sign byte s) (sign byte d) rot c 5 in
      let inc = e107_data (sign byte (sum byte s 1)) (sign byte s) (sign byte d) rot c 2 in
      let dec = e107_data (sign byte (difference byte s 1)) (sign byte s) (sign byte d) rot c 3 in
      (e107_cc_v sub ≡ as_bit (difference_overflows byte s d))
      × (e107_cc_c sub ≡ as_bit (ltb s d))
      × (e107_cc_v add ≡ as_bit (sum_overflows byte s d))
      × (e107_cc_c add ≡ as_bit (leb (2 * weight byte) (s + d)))
      × (e107_cc_v inc ≡ as_bit (s == weight byte - 1))
      × (e107_cc_c inc ≡ c)
      × (e107_cc_v dec ≡ as_bit (s == weight byte))
      × (e107_cc_c dec ≡ c)
e107_data-arithmetic byte s d rot c hs hd ho hc =
    let out = λ (r code : ℕ) (hr : r < 2) (hk : code < 8).
      e107_data-flags r (sign byte s) (sign byte d) rot c code hr (sign-lt byte s) (sign-lt byte d)
        ho hc hk in
    let (v4, c4) =
      out (sign byte (difference byte s d)) 4 (sign-lt byte (difference byte s d)) (omega arith) in
    let (v5, c5) = out (sign byte (sum byte s d)) 5 (sign-lt byte (sum byte s d)) (omega arith) in
    let (v2, c2) = out (sign byte (sum byte s 1)) 2 (sign-lt byte (sum byte s 1)) (omega arith) in
    let (v3, c3) =
      out (sign byte (difference byte s 1)) 3 (sign-lt byte (difference byte s 1)) (omega arith) in
    let (sv, sc) = subtract-flags byte s d hs hd in
    let (av, ac) = add-flags byte s d hs hd in
    let (iv, dv) = step-flags byte s (sign byte d) hs in
    (v4 ∙ sv, c4 ∙ sc, v5 ∙ av, c5 ∙ ac, v2 ∙ iv, c2, v3 ∙ dv, c3)
