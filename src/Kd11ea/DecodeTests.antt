-- ===== src/Kd11ea/DecodeTests.antt =====
-- The decode PROMs at concrete inputs.
use ll.Prelude.{
  ℕ, ◌*◌, ◌%◌, ◌^◌, ◌≡◌, refl, true, false, arith, ◌==◌, ltb, leb, as_bit, if◌then◌else◌, bit, ◌+◌,
  ◌-◌,
}
use ll.Kd11ea.Decode.{e71_mpc07_l, e107_data, e107_cc_v, e107_cc_c, shift_step}
use ll.Kd11ea.Decode.Branch.{taken_by, e71_mpc07_l-taken}
use ll.Kd11ea.Decode.Flags.{
  weight, sign, difference, sum, difference_overflows, sum_overflows, e107_data-arithmetic,
}
use ll.Kd11ea.Decode.Shift.{shifted, shifted_out, shift_step-shifted}

-- BNE with Z clear.
abbrev bne : ℕ
bne = 0o1005

e71_mpc07_l-taken_example : e71_mpc07_l bne 0 ≡ (if taken_by bne 0 then 0 else 1)
e71_mpc07_l-taken_example = e71_mpc07_l-taken bne 0

e107_data-arithmetic_example :
    let sub = e107_data (sign true (difference true 0x80 1)) (sign true 0x80) (sign true 1) 0 1 4 in
    let add = e107_data (sign true (sum true 0x80 1)) (sign true 0x80) (sign true 1) 0 1 5 in
    let inc = e107_data (sign true (sum true 0x80 1)) (sign true 0x80) (sign true 1) 0 1 2 in
    let dec = e107_data (sign true (difference true 0x80 1)) (sign true 0x80) (sign true 1) 0 1 3 in
    (e107_cc_v sub ≡ as_bit (difference_overflows true 0x80 1))
    × (e107_cc_c sub ≡ as_bit (ltb 0x80 1))
    × (e107_cc_v add ≡ as_bit (sum_overflows true 0x80 1))
    × (e107_cc_c add ≡ as_bit (leb (2 * weight true) (0x80 + 1)))
    × (e107_cc_v inc ≡ as_bit (0x80 == weight true - 1))
    × (e107_cc_c inc ≡ 1)
    × (e107_cc_v dec ≡ as_bit (0x80 == weight true))
    × (e107_cc_c dec ≡ 1)
e107_data-arithmetic_example =
    e107_data-arithmetic true 0x80 1 0 1 (omega arith) (omega arith) (omega arith) (omega arith)

-- ROL of R0.
abbrev rol : ℕ
rol = 0o6100

shift_step-shifted_example :
    let word = shift_step false rol 0x8081 1 (bit 15 0x8081) 0 in
    let byte = shift_step true rol 0x8081 1 (bit 7 0x8081) 0 in
    (word.0 ≡ shifted (2 ^ 16) 1 0x8081 1)
    × (word.1 ≡ shifted_out (2 ^ 16) 1 0x8081)
    × (byte.0 % 2 ^ 8 ≡ shifted (2 ^ 8) 1 (0x8081 % 2 ^ 8) 1)
    × (byte.1 ≡ shifted_out (2 ^ 8) 1 (0x8081 % 2 ^ 8))
shift_step-shifted_example =
    shift_step-shifted rol 1 0x8081 1 0 refl (omega arith) (omega arith) (omega arith)
