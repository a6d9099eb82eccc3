-- ===== src/Kd11ea/Decode/Branch.antt =====
-- E71 against the branch instructions.
use ll.Prelude.{
  ℕ, ◌+◌, ◌*◌, ◌/◌, ◌%◌, ◌^◌, ◌≡◌, refl, Bool, true, false, ◌||◌, not, [], ◌∷◌, arith, ◌==◌, ==_iff,
  if◌then◌else◌, truthy, bit, get_or, all_below, all_below_sound,
}
use ll.Kd11ea.Decode.{e71_addr, e71_mpc07_l}

abbrev xor : Bool → Bool → Bool
xor true b = not b
xor false b = b

-- The branches by IR10-IR08: first NOP, BR, BNE, BEQ, BGE, BLT, BGT and BLE, then, with IR15, BPL,
-- BMI, BHI, BLOS, BVC, BVS, BCC and BCS.
abbrev pub taken : Bool → ℕ → Bool → Bool → Bool → Bool → Bool
taken false op n z v c =
    get_or
      (false
        ∷ true
        ∷ not z
        ∷ z
        ∷ not (xor n v)
        ∷ xor n v
        ∷ not (z || xor n v)
        ∷ (z || xor n v)
        ∷ [])
      op false
taken true op n z v c =
    get_or (not n ∷ n ∷ not (c || z) ∷ (c || z) ∷ not v ∷ v ∷ not c ∷ c ∷ []) op false

-- The same of an instruction and a PSW.
abbrev pub taken_by : ℕ → ℕ → Bool
taken_by ir psw =
    taken (truthy (bit 15 ir)) (ir / 2 ^ 8 % 8) (truthy (bit 3 psw)) (truthy (bit 2 psw))
      (truthy (bit 1 psw)) (truthy (bit 0 psw))

-- Number `x` gives IR15, IR10-IR08 and the condition codes.
abbrev an_ir : ℕ → ℕ
an_ir x = x / 2 ^ 7 % 2 * 2 ^ 15 + x / 2 ^ 4 % 8 * 2 ^ 8

abbrev agrees : ℕ → Bool
agrees x = e71_mpc07_l (an_ir x) (x % 2 ^ 4) == (if taken_by (an_ir x) (x % 2 ^ 4) then 0 else 1)

table : all_below 256 agrees ≡ true
unfolding e71_mpc07_l
table = refl

lines_only :
    (ir psw : ℕ)
    → let x = bit 15 ir * 2 ^ 7 + ir / 2 ^ 8 % 8 * 2 ^ 4 + psw % 2 ^ 4 in
      (e71_mpc07_l ir psw ≡ e71_mpc07_l (an_ir x) (x % 2 ^ 4))
      × (taken_by ir psw ≡ taken_by (an_ir x) (x % 2 ^ 4))
unfolding e71_mpc07_l e71_addr
lines_only ir psw =
    let x : ℕ = bit 15 ir * 2 ^ 7 + ir / 2 ^ 8 % 8 * 2 ^ 4 + psw % 2 ^ 4 in
    let i15 : bit 15 (an_ir x) ≡ bit 15 ir = omega arith in
    let i10 : bit 10 (an_ir x) ≡ bit 10 ir = omega arith in
    let i9 : bit 9 (an_ir x) ≡ bit 9 ir = omega arith in
    let i8 : bit 8 (an_ir x) ≡ bit 8 ir = omega arith in
    let op : an_ir x / 2 ^ 8 % 8 ≡ ir / 2 ^ 8 % 8 = omega arith in
    let p3 : bit 3 (x % 2 ^ 4) ≡ bit 3 psw = omega arith in
    let p2 : bit 2 (x % 2 ^ 4) ≡ bit 2 psw = omega arith in
    let p1 : bit 1 (x % 2 ^ 4) ≡ bit 1 psw = omega arith in
    let p0 : bit 0 (x % 2 ^ 4) ≡ bit 0 psw = omega arith in
    (rw (i15, i10, i9, i8, p3, p2, p1, p0) refl, rw (i15, op, p3, p2, p1, p0) refl)

-- For an instruction in which the PROM is enabled, MPC 07 is driven low exactly when the branch
-- is taken under the condition codes of the PSW. The bits of the offset do not matter.
pub e71_mpc07_l-taken : (ir psw : ℕ) → e71_mpc07_l ir psw ≡ (if taken_by ir psw then 0 else 1)
e71_mpc07_l-taken ir psw =
    let x : ℕ = bit 15 ir * 2 ^ 7 + ir / 2 ^ 8 % 8 * 2 ^ 4 + psw % 2 ^ 4 in
    let (output, rule) = lines_only ir psw in
    rw (output, rule) ((==_iff _ _).0 (all_below_sound 256 agrees x table (omega arith)))
