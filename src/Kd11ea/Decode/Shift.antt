-- ===== src/Kd11ea/Decode/Shift.antt =====
-- E62 and the B register against the shift and rotate instructions.
use ll.Prelude.{
  ℕ, zero, suc, ◌+◌, ◌*◌, ◌/◌, ◌%◌, ◌^◌, ◌<◌, ◌≡◌, refl, ap, sym, ◌∙◌, Bool, true, false, bit_and,
  bit_or, bit_or-fields, bit_or-above, or-or, bit_and-shifted, bit_and-ones, masks, arith, ◌==◌,
  ◌||◌, ==_iff, if◌then◌else◌, bit, all_below, all_below_sound,
}
use ll.Kd11ea.Decode.{e62_data, e62_addr, breg_update, shift_step}

-- ROR, ROL, ASR and ASL, 0 to 3: SERIAL SHIFT, the mode, and ROT CBIT, as E62 gives them.
abbrev serial : ℕ → ℕ → ℕ → ℕ
serial op c n = if op == 0 || op == 1 then c else if op == 2 then n else 0

abbrev outputs : ℕ → ℕ → ℕ → ℕ → ℕ
outputs op b0 c n =
    serial op c n + (if op % 2 == 0 then 2 else 1) * 2 + (if op % 2 == 0 then b0 else n) * 8

abbrev agrees : ℕ → Bool
agrees x =
    e62_data ((16 + x % 4) * 2 ^ 6) (bit 3 x) (bit 2 x) (bit 4 x) % 16
    == outputs (x % 4) (bit 3 x) (bit 2 x) (bit 4 x)

table : all_below 32 agrees ≡ true
unfolding e62_data
table = refl

e62_data-outputs :
    (ir op b0 c n : ℕ)
    → ir / 2 ^ 6 % 2 ^ 5 ≡ 16 + op
    → op < 4
    → b0 < 2
    → c < 2
    → n < 2
    → e62_data ir b0 c n % 16 ≡ outputs op b0 c n
unfolding e62_data e62_addr
e62_data-outputs ir op b0 c n e ho hb hc hn =
    let x : ℕ = n * 16 + b0 * 8 + c * 4 + op in
    let x0 : x % 4 ≡ op = omega arith in
    let x2 : bit 2 x ≡ c = omega arith in
    let x3 : bit 3 x ≡ b0 = omega arith in
    let x4 : bit 4 x ≡ n = omega arith in
    let i10 : bit 10 ir ≡ bit 10 ((16 + op) * 2 ^ 6) = omega arith in
    let i9 : bit 9 ir ≡ bit 9 ((16 + op) * 2 ^ 6) = omega arith in
    let i8 : bit 8 ir ≡ bit 8 ((16 + op) * 2 ^ 6) = omega arith in
    let i7 : bit 7 ir ≡ bit 7 ((16 + op) * 2 ^ 6) = omega arith in
    let i6 : bit 6 ir ≡ bit 6 ((16 + op) * 2 ^ 6) = omega arith in
    rw (i10, i9, i8, i7, i6)
      (rw (x0, x2, x3, x4) at ((==_iff _ _).0 (all_below_sound 32 agrees x table (omega arith))))

-- The two bytes of a word, as masks.
bytes_eq : (x : ℕ) → x < 2 ^ 16 → x ≡ bit_or (bit_and x 0xff00) (bit_and x 0x00ff)
bytes_eq x h =
    let high : bit_and x 0xff00 ≡ x / 2 ^ 8 * 2 ^ 8 =
      omega (arith, bit_and-shifted 8 x 255, bit_and-ones 8 (x / 2 ^ 8)) in
    let low : bit_and x 0x00ff ≡ x % 2 ^ 8 = bit_and-ones 8 x in
    rw (high, low, bit_or-fields 8 (x / 2 ^ 8) (x % 2 ^ 8) (omega arith)) (omega arith)

-- `x & ~0x0080`
without_bit7 : (x : ℕ) → x < 2 ^ 16 → bit_and x 0xff7f ≡ x / 2 ^ 8 * 2 ^ 8 + x % 2 ^ 7
without_bit7 x h =
    let split : bit_and (bit_or (bit_and x 0xff00) (bit_and x 0x00ff)) 0xff7f
        ≡ bit_or (bit_and x 0xff00) (bit_and x 0x007f) =
      simp masks in
    let high : bit_and x 0xff00 ≡ x / 2 ^ 8 * 2 ^ 8 =
      omega (arith, bit_and-shifted 8 x 255, bit_and-ones 8 (x / 2 ^ 8)) in
    let low : bit_and x 0x007f ≡ x % 2 ^ 7 = bit_and-ones 7 x in
    ap (λ t. bit_and t 0xff7f) (bytes_eq x h)
    ∙ split
    ∙ rw (high, low) (bit_or-fields 8 (x / 2 ^ 8) (x % 2 ^ 7) (omega arith))

-- A bit put at place 7 of a word that has none there.
with_bit7 :
    (x s7 : ℕ)
    → x < 2 ^ 16
    → s7 < 2
    → bit_or (bit_and x 0xff7f) (s7 * 2 ^ 7) ≡ x / 2 ^ 8 * 2 ^ 8 + (s7 * 2 ^ 7 + x % 2 ^ 7)
with_bit7 x s7 h h7 =
    let parts : bit_and x 0xff7f ≡ bit_or (x / 2 ^ 8 * 2 ^ 8) (x % 2 ^ 7) =
      without_bit7 x h ∙ sym (bit_or-fields 8 (x / 2 ^ 8) (x % 2 ^ 7) (omega arith)) in
    ap (λ t. bit_or t (s7 * 2 ^ 7)) parts
    ∙ or-or (x / 2 ^ 8 * 2 ^ 8) (x % 2 ^ 7) (s7 * 2 ^ 7)
    ∙ ap (bit_or (x / 2 ^ 8 * 2 ^ 8)) (bit_or-above 7 (x % 2 ^ 7) s7 (omega arith))
    ∙ bit_or-fields 8 (x / 2 ^ 8) (s7 * 2 ^ 7 + x % 2 ^ 7) (omega arith)

right-eq :
    (b load s s7 : ℕ)
    → b < 2 ^ 16
    → s < 2
    → s7 < 2
    → breg_update b 2 load s s7
      ≡ s * 2 ^ 15 + (b / 2 / 2 ^ 8 * 2 ^ 8 + (s7 * 2 ^ 7 + b / 2 % 2 ^ 7))
unfolding breg_update
right-eq b load s s7 h hs h7 =
    let seven : s7 % 2 ≡ s7 = omega arith in
    let fifteen : s % 2 ≡ s = omega arith in
    rw (seven, fifteen, with_bit7 (b / 2) s7 (omega arith) h7)
      (bit_or-above 15 (b / 2 / 2 ^ 8 * 2 ^ 8 + (s7 * 2 ^ 7 + b / 2 % 2 ^ 7)) s (omega arith))

left-eq : (b load s s7 : ℕ) → s < 2 → breg_update b 1 load s s7 ≡ (b * 2 + s) % 2 ^ 16
unfolding breg_update
left-eq b load s s7 h = omega arith

-- What the four instructions leave, in a byte or a word of `size` values.
abbrev pub shifted : ℕ → ℕ → ℕ → ℕ → ℕ
shifted size op b c =
    if op % 2 == 0
    then b / 2 + (if op == 0 then c else b / (size / 2)) * (size / 2)
    else (b * 2 + (if op == 1 then c else 0)) % size

-- The bit shifted out.
abbrev pub shifted_out : ℕ → ℕ → ℕ → ℕ
shifted_out size op b = if op % 2 == 0 then b % 2 else b / (size / 2)

d_lines :
    (d s m rot : ℕ)
    → d % 16 ≡ s + m * 2 + rot * 8
    → s < 2
    → m < 3
    → rot < 2
    → (bit 0 d ≡ s) × (bit_or (bit 1 d) (bit 2 d * 2) ≡ m) × (bit 3 d ≡ rot)
d_lines d s m rot e hs hm hr =
    let m1 : bit 1 d ≡ m % 2 = omega arith in
    let m2 : bit 2 d ≡ m / 2 = omega arith in
    (
      omega arith,
      rw (m1, m2) (bit_or-above 1 (m % 2) (m / 2) (omega arith) ∙ omega arith),
      omega arith,
    )

-- One step, with the PROM's outputs written out.
shift_step-lines :
    (byte : Bool) (ir op b c n load : ℕ)
    → ir / 2 ^ 6 % 2 ^ 5 ≡ 16 + op
    → op < 4
    → c < 2
    → n < 2
    → shift_step byte ir b c n load ≡ (
      breg_update b
          (if op % 2 == 0 then 2 else 1)
          load
          (serial op c n)
          (if byte then serial op c n else bit 8 b),
      if op % 2 == 0 then b % 2 else n,
    )
unfolding shift_step
shift_step-lines byte ir op b c n load e ho hc hn =
    let (s, m, rot) =
      d_lines (e62_data ir (b % 2) c n) (serial op c n) (if op % 2 == 0 then 2 else 1)
        (if op % 2 == 0 then b % 2 else n)
        (e62_data-outputs ir op (b % 2) c n e ho (omega arith) hc hn) (ground arith) (ground arith)
        (ground arith) in
    rw (s, m, rot) refl

shifted_word :
    (op b c load : ℕ)
    → op < 4
    → b < 2 ^ 16
    → c < 2
    → breg_update b (if op % 2 == 0 then 2 else 1) load (serial op c (bit 15 b)) (bit 8 b)
      ≡ shifted (2 ^ 16) op b c
shifted_word zero b c load ho h hc = omega (arith, right-eq b load c (bit 8 b) h hc (omega arith))
shifted_word (suc zero) b c load ho h hc = omega (arith, left-eq b load c (bit 8 b) hc)
shifted_word (suc (suc zero)) b c load ho h hc =
    omega (arith, right-eq b load (bit 15 b) (bit 8 b) h (omega arith) (omega arith))
shifted_word (suc (suc (suc zero))) b c load ho h hc =
    omega (arith, left-eq b load 0 (bit 8 b) (omega arith))
shifted_word (suc (suc (suc (suc op)))) b c load ho h hc = absurd (omega arith)

shifted_byte :
    (op b c load : ℕ)
    → op < 4
    → b < 2 ^ 16
    → c < 2
    → breg_update b
          (if op % 2 == 0 then 2 else 1)
          load
          (serial op c (bit 7 b))
          (serial op c (bit 7 b))
        % 2 ^ 8
      ≡ shifted (2 ^ 8) op (b % 2 ^ 8) c
shifted_byte zero b c load ho h hc = omega (arith, right-eq b load c c h hc hc)
shifted_byte (suc zero) b c load ho h hc = omega (arith, left-eq b load c c hc)
shifted_byte (suc (suc zero)) b c load ho h hc =
    omega (arith, right-eq b load (bit 7 b) (bit 7 b) h (omega arith) (omega arith))
shifted_byte (suc (suc (suc zero))) b c load ho h hc =
    omega (arith, left-eq b load 0 0 (omega arith))
shifted_byte (suc (suc (suc (suc op)))) b c load ho h hc = absurd (omega arith)

-- ROR, ROL, ASR and ASL (0 to 3) of a B of sixteen bits and a C of one bit, with the sign of B on
-- CC N: B takes the shifted word, or its low byte the shifted byte, and ROT CBIT the bit shifted
-- out.
pub shift_step-shifted :
    (ir op b c load : ℕ)
    → ir / 2 ^ 6 % 2 ^ 5 ≡ 16 + op
    → op < 4
    → b < 2 ^ 16
    → c < 2
    → let word = shift_step false ir b c (bit 15 b) load in
      let byte = shift_step true ir b c (bit 7 b) load in
      (word.0 ≡ shifted (2 ^ 16) op b c)
      × (word.1 ≡ shifted_out (2 ^ 16) op b)
      × (byte.0 % 2 ^ 8 ≡ shifted (2 ^ 8) op (b % 2 ^ 8) c)
      × (byte.1 ≡ shifted_out (2 ^ 8) op (b % 2 ^ 8))
shift_step-shifted ir op b c load e ho h hc =
    let word = shift_step-lines false ir op b c (bit 15 b) load e ho hc (omega arith) in
    let byte = shift_step-lines true ir op b c (bit 7 b) load e ho hc (omega arith) in
    (
      ap (λ (t : ℕ × ℕ). t.0) word ∙ shifted_word op b c load ho h hc,
      ap (λ (t : ℕ × ℕ). t.1) word ∙ ground arith,
      ap (λ (t : ℕ × ℕ). t.0 % 2 ^ 8) byte ∙ shifted_byte op b c load ho h hc,
      ap (λ (t : ℕ × ℕ). t.1) byte ∙ ground arith,
    )
