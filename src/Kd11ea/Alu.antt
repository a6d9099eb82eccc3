-- ===== src/Kd11ea/Alu.antt =====
-- The ALU, four 74S181 slices (pdp11/kd11ea/kd11ea.h).
pub mod Exact
use ll.Prelude.{
  ℕ, ◌+◌, ◌-◌, ◌*◌, ◌%◌, ◌^◌, bit_and, bit_or, bit_xor, ◌==◌, if◌then◌else◌, truthy, bit,
}

-- `~x` under a mask of ones.
abbrev pub inverted : ℕ → ℕ → ℕ
inverted mask x = mask - bit_and x mask

-- Arithmetic on the bits of the mask, 0xffff or the bits below a slice.
unfoldable pub alu_74s181_arith : ℕ → ℕ → ℕ → ℕ → ℕ → ℕ
alu_74s181_arith a b s cin mask =
    let aa = bit_and a mask in
    let bb = bit_and b mask in
    let nb = inverted mask bb in
    let c = if truthy cin then 1 else 0 in
    if s == 0x0
    then aa + c
    else if s == 0x1
    then bit_or aa bb + c
    else if s == 0x2
    then bit_or aa nb + c
    else if s == 0x3
    then mask + c
    else if s == 0x4
    then aa + bit_and aa nb + c
    else if s == 0x5
    then bit_or aa bb + bit_and aa nb + c
    else if s == 0x6
    then aa + nb + c
    else if s == 0x7
    then bit_and aa nb + mask + c
    else if s == 0x8
    then aa + bit_and aa bb + c
    else if s == 0x9
    then aa + bb + c
    else if s == 0xa
    then bit_or aa nb + bit_and aa bb + c
    else if s == 0xb
    then bit_and aa bb + mask + c
    else if s == 0xc
    then aa + aa + c
    else if s == 0xd
    then bit_or aa bb + aa + c
    else if s == 0xe
    then bit_or aa nb + aa + c
    else if s == 0xf
    then aa + mask + c
    else 0

-- The logic functions, on sixteen bits.
unfoldable pub alu_74s181_logic : ℕ → ℕ → ℕ → ℕ
alu_74s181_logic a b s =
    let na = inverted 0xffff a in
    let nb = inverted 0xffff b in
    if s == 0x0
    then na
    else if s == 0x1
    then inverted 0xffff (bit_or a b)
    else if s == 0x2
    then bit_and na b
    else if s == 0x3
    then 0
    else if s == 0x4
    then inverted 0xffff (bit_and a b)
    else if s == 0x5
    then nb
    else if s == 0x6
    then bit_xor a b
    else if s == 0x7
    then bit_and a nb
    else if s == 0x8
    then bit_or na b
    else if s == 0x9
    then inverted 0xffff (bit_xor a b)
    else if s == 0xa
    then b
    else if s == 0xb
    then bit_and a b
    else if s == 0xc
    then 0xffff
    else if s == 0xd
    then bit_or a nb
    else if s == 0xe
    then bit_or a b
    else if s == 0xf
    then a
    else 0

-- The result and the carry out.
unfoldable pub alu_74s181 : ℕ → ℕ → ℕ → ℕ → ℕ → ℕ × ℕ
unfolding alu_74s181_arith alu_74s181_logic
alu_74s181 a b s mode cin =
    if truthy mode
    then (alu_74s181_logic a b s % 2 ^ 16, 0)
    else (let result = alu_74s181_arith a b s cin 0xffff in (result % 2 ^ 16, bit 16 result))

unfoldable pub alu_74s181_slice_carries : ℕ → ℕ → ℕ → ℕ → ℕ → ℕ
unfolding alu_74s181_arith
alu_74s181_slice_carries a b s mode cin =
    if truthy mode
    then 0
    else bit_or
        (bit_or (bit 4 (alu_74s181_arith a b s cin 0xf))
          (bit 8 (alu_74s181_arith a b s cin 0xff) * 2))
        (bit 12 (alu_74s181_arith a b s cin 0xfff) * 2 ^ 2)
