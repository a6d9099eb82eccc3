-- ===== src/Kd11ea/Decode/Service.antt =====
-- E52 and E51: which trap is taken between instructions, and at which vector; and E53: which
-- operate instructions trap.
use ll.Prelude.{
  ℕ, ◌+◌, ◌*◌, ◌≤◌, leb, lt_or_le, inl, inr, ◌/◌, ◌%◌, ◌^◌, ◌<◌, ◌≡◌, refl, Bool, true, ◌&&◌, ◌||◌,
  [], ◌∷◌, arith, ◌==◌, ==_iff, and_true, if◌then◌else◌, truthy, bit, get_or, all_below,
  all_below_sound,
}
use ll.Kd11ea.Decode.{
  e53_enabled, service_roms, service_vector, e51_enab_grants, e53_data, e53_ir_code, e53_halt_rqst,
}

-- The vectors of the IR codes 1 to 6: reserved, JMP or JSR to a register, BPT, IOT, EMT, TRAP.
abbrev pub ir_code_vector : ℕ → ℕ
ir_code_vector code = get_or (0 ∷ 0o10 ∷ 0o4 ∷ 0o14 ∷ 0o20 ∷ 0o30 ∷ 0o34 ∷ []) code 0

-- The vector to take, 0 for none: an abort of memory management first, then a bus error, the
-- instruction's own trap, the trace trap, and stack overflow. An abort and a bus error at once
-- give the two vectors' lines together.
abbrev pub trap_vector : ℕ → ℕ → ℕ → ℕ → ℕ → ℕ
trap_vector tbit_trap stov bus_error mmu_kte ir_code =
    if truthy mmu_kte
    then (if truthy bus_error then 0o244 else 0o250)
    else if truthy bus_error
    then 0o4
    else if truthy (ir_code_vector ir_code)
    then ir_code_vector ir_code
    else if truthy tbit_trap
    then 0o14
    else if truthy stov
    then 0o4
    else 0

abbrev agrees : ℕ → Bool
agrees x =
    let t = bit 0 x in
    let s = bit 1 x in
    let b = bit 2 x in
    let k = bit 3 x in
    let code = x / 2 ^ 4 in
    let d = service_roms t s b k code in
    service_vector d k 0 == trap_vector t s b k code
    && e51_enab_grants d == (if trap_vector t s b k code == 0 then 1 else 0)

-- The operate instructions that trap: the IR code of one, 0 for none.
abbrev pub trap_code : ℕ → Bool → ℕ
trap_code ir user =
    if ir == 0
    then (if user then 1 else 0)
    else if ir == 3
    then 3
    else if ir == 4
    then 4
    else if (leb 0o7 ir && leb ir 0o77) || (leb 0o210 ir && leb ir 0o237)
    then 1
    else 0

abbrev traps_agree : ℕ → Bool
traps_agree x =
    let ir = x / 2 in
    let d = e53_data ir (x % 2) in
    e53_ir_code d == trap_code ir (x % 2 == 1)
    && e53_halt_rqst d == (if ir == 0 && x % 2 == 0 then 1 else 0)

traps_table : all_below 512 traps_agree ≡ true
unfolding e53_data e53_ir_code e53_halt_rqst
traps_table = refl

traps_entry :
    (x : ℕ)
    → x < 512
    → (e53_ir_code (e53_data (x / 2) (x % 2)) ≡ trap_code (x / 2) (x % 2 == 1))
      × (e53_halt_rqst (e53_data (x / 2) (x % 2)) ≡ (if x / 2 == 0 && x % 2 == 0 then 1 else 0))
traps_entry x h =
    let (code, halt) = and_true _ _ (all_below_sound 512 traps_agree x traps_table h) in
    ((==_iff _ _).0 code, (==_iff _ _).0 halt)

-- An instruction outside the operate group leaves the PROM off.
disabled : (ir user : ℕ) → ir < 2 ^ 16 → 2 ^ 8 ≤ ir → e53_data ir user ≡ 0xf
unfolding e53_data e53_enabled
disabled ir user h big = ground arith

beyond :
    (ir user : ℕ)
    → 2 ^ 8 ≤ ir
    → (e53_ir_code 0xf ≡ trap_code ir (user == 1))
      × (e53_halt_rqst 0xf ≡ (if ir == 0 && user == 0 then 1 else 0))
unfolding e53_ir_code e53_halt_rqst
beyond ir user big = ground arith

-- HALT stops the processor in kernel mode and is a reserved instruction in user mode; BPT and IOT
-- have codes of their own; octal 7 to 77 and 210 to 237 are
-- reserved; and no other instruction of sixteen bits traps here.
pub e53_data-trap_code :
    (ir user : ℕ)
    → ir < 2 ^ 16
    → user < 2
    → (e53_ir_code (e53_data ir user) ≡ trap_code ir (user == 1))
      × (e53_halt_rqst (e53_data ir user) ≡ (if ir == 0 && user == 0 then 1 else 0))
e53_data-trap_code ir user h hu = elim (lt_or_le ir 256) [
  | inl small ↦
      let x : ℕ = ir * 2 + user in
      let ei : x / 2 ≡ ir = omega arith in
      let eu : x % 2 ≡ user = omega arith in rw (ei, eu) at (traps_entry x (omega arith))
  | inr big ↦ rw (disabled ir user h big) (beyond ir user big)
]
