-- ===== src/Kd11ea/Micro/Double.antt =====
-- The double operand instructions of the PDP-11 as the processor handbook describes them, and what
-- the data path gives for them (pdp11/kd11ea/kd11ea.c, pdp11/kd11ea/kd11ea.h).
use ll.Prelude.{
  ℕ, ◌+◌, ◌-◌, ◌%◌, ◌^◌, ◌<◌, bit_and, bit_or, Bool, false, [], ◌∷◌, ◌≡◌, refl, ap, ap₂, ◌∙◌, arith,
  ltb, leb, ◌==◌, as_bit, bit, bit_and-ones, bit_or-lt, bit_and-le,
}
use ll.Kd11ea.Decode.{lines, e107_data, e107_cc_v, e107_cc_c}
use ll.Kd11ea.Decode.Flags.{
  e107_data-arithmetic, e107_data-flags, sum, difference, sum_overflows, difference_overflows,
}

pub data DoubleOp : Type 0 where
  mov : DoubleOp
  cmp : DoubleOp
  bit_test : DoubleOp
  bic : DoubleOp
  bis : DoubleOp
  add : DoubleOp
  sub : DoubleOp

-- With R0 as the source and R1 as the destination.
abbrev pub double_code : DoubleOp → ℕ
double_code mov = 0o010001
double_code cmp = 0o020001
double_code bit_test = 0o030001
double_code bic = 0o040001
double_code bis = 0o050001
double_code add = 0o060001
double_code sub = 0o160001

-- The result on a source and a destination.
abbrev pub result : DoubleOp → ℕ → ℕ → ℕ
result mov s d = s
result cmp s d = difference false s d
result bit_test s d = bit_and s d
result bic s d = bit_and (0xffff - s) d
result bis s d = bit_or s d
result add s d = sum false s d
result sub s d = difference false d s

-- The destination afterwards: CMP and BIT only test.
abbrev pub stored : DoubleOp → ℕ → ℕ → ℕ
stored cmp s d = d
stored bit_test s d = d
stored op s d = result op s d

abbrev pub overflows : DoubleOp → ℕ → ℕ → Bool
overflows cmp s d = difference_overflows false s d
overflows add s d = sum_overflows false s d
overflows sub s d = difference_overflows false d s
overflows op s d = false

-- The carry or the borrow, from a clear C.
abbrev pub carries : DoubleOp → ℕ → ℕ → Bool
carries cmp s d = ltb s d
carries add s d = leb (2 ^ 16) (s + d)
carries sub s d = ltb d s
carries op s d = false

-- The condition codes in the order of the PSW.
abbrev pub nzvc : ℕ → ℕ → ℕ → ℕ → ℕ
nzvc n z v c = lines (c ∷ v ∷ z ∷ n ∷ [])

abbrev pub flags : DoubleOp → ℕ → ℕ → ℕ
flags op s d =
    let r = result op s d in
    nzvc (bit 15 r) (as_bit (r == 0)) (as_bit (overflows op s d)) (as_bit (carries op s d))

-- The ALU's output as its functions compute it.
abbrev pub output : DoubleOp → ℕ → ℕ → ℕ
output mov s d = s % 65536
output cmp s d = (bit_and s 65535 + (65535 - bit_and (bit_and (d % 65536) 65535) 65535) + 1) % 65536
output bit_test s d = bit_and s (d % 65536) % 65536
output bic s d = bit_and (65535 - bit_and s 65535) (d % 65536) % 65536
output bis s d = bit_or s (d % 65536) % 65536
output add s d = (bit_and s 65535 + bit_and (d % 65536) 65535 + 0) % 65536
output sub s d = (bit_and d 65535 + (65535 - bit_and (bit_and (s % 65536) 65535) 65535) + 1) % 65536

word : (x : ℕ) → x < 2 ^ 16 → x % 65536 ≡ x
word x h = omega arith

pub output-result :
    (op : DoubleOp) (s d : ℕ) → s < 2 ^ 16 → d < 2 ^ 16 → output op s d ≡ result op s d
output-result mov s d hs hd = omega arith
output-result cmp s d hs hd = omega (
  arith,
  bit_and-ones 16 s,
  bit_and-ones 16 (d % 65536),
  bit_and-ones 16 (bit_and (d % 65536) 65535),
)
output-result bit_test s d hs hd =
    ap (λ x. bit_and s x % 65536) (word d hd) ∙ word (bit_and s d) (omega (arith, bit_and-le s d))
output-result bic s d hs hd =
    ap₂ (λ x y. bit_and (65535 - x) y % 65536) (bit_and-ones 16 s ∙ word s hs) (word d hd)
    ∙ word (bit_and (65535 - s) d) (omega (arith, bit_and-le (65535 - s) d))
output-result bis s d hs hd =
    ap (λ x. bit_or s x % 65536) (word d hd) ∙ word (bit_or s d) (bit_or-lt 16 s d hs hd)
output-result add s d hs hd = omega (arith, bit_and-ones 16 s, bit_and-ones 16 (d % 65536))
output-result sub s d hs hd = omega (
  arith,
  bit_and-ones 16 d,
  bit_and-ones 16 (s % 65536),
  bit_and-ones 16 (bit_and (s % 65536) 65535),
)

-- E107's data for the legs of the ALU: the source on A, and for SUB the destination; the CC CODE
-- is that of E68.
abbrev pub e107_for : DoubleOp → ℕ → ℕ → ℕ
e107_for mov s d = e107_data (bit 15 (output mov s d)) (bit 15 s) 0 1 0 7
e107_for cmp s d = e107_data (bit 15 (output cmp s d)) (bit 15 s) (bit 15 (d % 65536)) 1 0 4
e107_for bit_test s d =
    e107_data (bit 15 (output bit_test s d)) (bit 15 s) (bit 15 (d % 65536)) 1 0 7
e107_for bic s d = e107_data (bit 15 (output bic s d)) (bit 15 s) (bit 15 (d % 65536)) 1 0 7
e107_for bis s d = e107_data (bit 15 (output bis s d)) (bit 15 s) (bit 15 (d % 65536)) 1 0 7
e107_for add s d = e107_data (bit 15 (output add s d)) (bit 15 s) (bit 15 (d % 65536)) 1 0 5
e107_for sub s d = e107_data (bit 15 (output sub s d)) (bit 15 d) (bit 15 (s % 65536)) 1 0 4

abbrev pub wired : DoubleOp → ℕ → ℕ → ℕ
wired op s d =
    let r = output op s d in
    nzvc (bit 15 r) (as_bit (r % 65536 == 0)) (e107_cc_v (e107_for op s d))
      (e107_cc_c (e107_for op s d))

-- Codes of an output that is a result, from E107's flags for the result.
codes_of :
    (r res a b b' code v c : ℕ)
    → r % 65536 ≡ r
    → r ≡ res
    → b ≡ b'
    → (e107_cc_v (e107_data (bit 15 res) a b' 1 0 code) ≡ v)
      × (e107_cc_c (e107_data (bit 15 res) a b' 1 0 code) ≡ c)
    → nzvc
        (bit 15 r)
        (as_bit (r % 65536 == 0))
        (e107_cc_v (e107_data (bit 15 r) a b 1 0 code))
        (e107_cc_c (e107_data (bit 15 r) a b 1 0 code))
      ≡ nzvc (bit 15 res) (as_bit (res == 0)) v c
codes_of r res a b b' code v c hr p q (hv, hc) =
    let e = λ (x y : ℕ). e107_data (bit 15 x) a y 1 0 code in
    let f =
      λ (z x y : ℕ). nzvc (bit 15 x) (as_bit (z == 0)) (e107_cc_v (e x y)) (e107_cc_c (e x y)) in
    ap (λ z. f z r b) hr
    ∙ ap₂ (λ x y. f x x y) p q
    ∙ ap₂ (nzvc (bit 15 res) (as_bit (res == 0))) hv hc

mod_mod : (x : ℕ) → x % 65536 % 65536 ≡ x % 65536
mod_mod x = omega arith

-- CC CODE 7 clears V and keeps C.
tested :
    (r a b : ℕ)
    → a < 2
    → b < 2
    → (e107_cc_v (e107_data (bit 15 r) a b 1 0 7) ≡ 0)
      × (e107_cc_c (e107_data (bit 15 r) a b 1 0 7) ≡ 0)
tested r a b ha hb =
    e107_data-flags (bit 15 r) a b 1 0 7 (omega arith) ha hb (omega arith) (omega arith)
      (omega arith)

compared :
    (a b : ℕ)
    → a < 2 ^ 16
    → b < 2 ^ 16
    → let e = e107_data (bit 15 (difference false a b)) (bit 15 a) (bit 15 b) 1 0 4 in
      (e107_cc_v e ≡ as_bit (difference_overflows false a b)) × (e107_cc_c e ≡ as_bit (ltb a b))
compared a b ha hb =
    let (v, c, v5, c5, v2, c2, v3, c3) =
      e107_data-arithmetic false a b 1 0 ha hb (omega arith) (omega arith) in
    (v, c)

added :
    (a b : ℕ)
    → a < 2 ^ 16
    → b < 2 ^ 16
    → let e = e107_data (bit 15 (sum false a b)) (bit 15 a) (bit 15 b) 1 0 5 in
      (e107_cc_v e ≡ as_bit (sum_overflows false a b))
      × (e107_cc_c e ≡ as_bit (leb (2 ^ 16) (a + b)))
added a b ha hb =
    let (v4, c4, v, c, v2, c2, v3, c3) =
      e107_data-arithmetic false a b 1 0 ha hb (omega arith) (omega arith) in
    (v, c)

-- The condition codes that the PROMs give are those of the handbook.
pub wired-flags : (op : DoubleOp) (s d : ℕ) → s < 2 ^ 16 → d < 2 ^ 16 → wired op s d ≡ flags op s d
wired-flags op s d hs hd =
    let p = output-result op s d hs hd in
    let q : bit 15 (d % 65536) ≡ bit 15 d = ap (bit 15) (word d hd) in
    let q' : bit 15 (s % 65536) ≡ bit 15 s = ap (bit 15) (word s hs) in
    let t = λ (x : ℕ) (b : ℕ) (h : b < 2). tested x (bit 15 s) b (omega arith) h in
    elim op as (λ o. output o s d ≡ result o s d → wired o s d ≡ flags o s d) [
      | mov ↦ λ h. codes_of _ _ _ _ _ 7 0 0 (mod_mod _) h refl (t _ 0 (omega arith))
      | cmp ↦ λ h. codes_of _ _ _ _ _ 4 _ _ (mod_mod _) h q (compared s d hs hd)
      | bit_test ↦ λ h. codes_of _ _ _ _ _ 7 0 0 (mod_mod _) h q (t _ _ (omega arith))
      | bic ↦ λ h. codes_of _ _ _ _ _ 7 0 0 (mod_mod _) h q (t _ _ (omega arith))
      | bis ↦ λ h. codes_of _ _ _ _ _ 7 0 0 (mod_mod _) h q (t _ _ (omega arith))
      | add ↦ λ h. codes_of _ _ _ _ _ 5 _ _ (mod_mod _) h q (added s d hs hd)
      | sub ↦ λ h. codes_of _ _ _ _ _ 4 _ _ (mod_mod _) h q' (compared d s hd hs)
    ]
      p

pub flags-lt : (op : DoubleOp) (s d : ℕ) → flags op s d < 16
flags-lt op s d = omega arith
