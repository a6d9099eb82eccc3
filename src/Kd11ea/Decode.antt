-- ===== src/Kd11ea/Decode.antt =====
-- Instruction decode through the PROMs (pdp11/kd11ea/rom_wiring.h), and the shifts of the B
-- register (pdp11/kd11ea/kd11ea.c). An address that is put together from single lines is written
-- as the list of the lines, the lowest first.
pub mod Roms
pub mod E52
pub mod Branch
pub mod Flags
pub mod Service
pub mod Shift
use ll.Prelude.{
  ℕ, zero, suc, ◌+◌, ◌-◌, ◌*◌, ◌/◌, ◌%◌, ◌^◌, bit_and, bit_or, Bool, true, false, ◌&&◌, ◌||◌, not,
  List, [], ◌∷◌, leb, ltb, ◌==◌, if◌then◌else◌, truthy, as_bit, bit, get_or,
}
use ll.Kd11ea.Decode.Roms.{e51_rom, e53_rom, e62_rom, e71_rom, e107_rom}
use ll.Kd11ea.Decode.E52.{e52_rom}

abbrev pub lines : List ℕ → ℕ
lines [] = 0
lines (b ∷ bs) = b % 2 + 2 * lines bs

abbrev pub low : ℕ → ℕ
low b = if b % 2 == 0 then 1 else 0

-- E71: IR08-IR10, IR15, V, Z, N, C to MPC 07 L.
unfoldable pub e71_addr : ℕ → ℕ → ℕ
e71_addr ir psw = lines (
    bit 8 ir
    ∷ bit 9 ir
    ∷ bit 10 ir
    ∷ bit 15 ir
    ∷ bit 1 psw
    ∷ bit 2 psw
    ∷ bit 3 psw
    ∷ bit 0 psw
    ∷ [])

unfoldable pub e71_mpc07_l : ℕ → ℕ → ℕ
unfolding e71_addr e71_rom
e71_mpc07_l ir psw = bit 0 (get_or e71_rom (e71_addr ir psw) 0)

-- E107: CC CODE, CBIT, ROT CBIT, and the signs of D, S and R, to V and C.
unfoldable pub e107_addr : ℕ → ℕ → ℕ → ℕ → ℕ → ℕ → ℕ
e107_addr r_msb s_msb d_msb rot_cbit psw_cbit cc_code = lines (
    bit 0 cc_code
    ∷ bit 1 cc_code
    ∷ bit 2 cc_code
    ∷ psw_cbit
    ∷ rot_cbit
    ∷ d_msb
    ∷ s_msb
    ∷ r_msb
    ∷ [])

unfoldable pub e107_cc_v : ℕ → ℕ
e107_cc_v d = bit 3 d

unfoldable pub e107_cc_c : ℕ → ℕ
e107_cc_c d = bit 2 d

unfoldable pub e107_data : ℕ → ℕ → ℕ → ℕ → ℕ → ℕ → ℕ
unfolding e107_addr e107_rom
e107_data r_msb s_msb d_msb rot_cbit psw_cbit cc_code =
    get_or e107_rom (e107_addr r_msb s_msb d_msb rot_cbit psw_cbit cc_code) 0

-- E53: IR00 IR05 IR07 IR01-IR04 and the mode, enabled by IR06 low and the rest of the IR.
unfoldable pub e53_addr : ℕ → ℕ → ℕ
e53_addr ir user_mode =
    lines
      (bit 0 ir ∷ bit 5 ir ∷ bit 7 ir ∷ bit 1 ir ∷ bit 2 ir ∷ bit 3 ir ∷ bit 4 ir ∷ user_mode ∷ [])

unfoldable pub e53_enabled : ℕ → Bool
e53_enabled ir =
    if truthy (bit 6 ir)
    then false
    else if not (ir / 2 ^ 12 % 8 == 0)
    then false
    else if not (ir / 2 ^ 9 % 8 == 0)
    then false
    else if truthy (bit 8 ir)
    then false
    else not (truthy (bit 15 ir))

unfoldable pub e53_ir_code : ℕ → ℕ
e53_ir_code d = low (bit 3 d) * 4 + low (bit 2 d) * 2 + low (bit 1 d)

-- The IR code and HALT RQST as the processor loads them with an instruction. A PROM that is not
-- enabled has its outputs high.
unfoldable pub e53_data : ℕ → ℕ → ℕ
unfolding e53_enabled e53_addr e53_rom
e53_data ir user_mode = if e53_enabled ir then get_or e53_rom (e53_addr ir user_mode) 0 else 0xf

unfoldable pub e53_halt_rqst : ℕ → ℕ
e53_halt_rqst d = low (bit 0 d)

-- E52: T, BE, STOV, PE, KTE, PFAIL, the IR code low, and FP11 SERVICE BR PFAIL L.
unfoldable pub e52_addr : ℕ → ℕ → ℕ → ℕ → ℕ → ℕ → ℕ → ℕ → ℕ
e52_addr tbit_and_enab stov be pe kte pfail ir_code service_br_pfail_l = lines (
    tbit_and_enab
    ∷ be
    ∷ stov
    ∷ pe
    ∷ kte
    ∷ pfail
    ∷ low (bit 2 ir_code)
    ∷ low (bit 1 ir_code)
    ∷ low (bit 0 ir_code)
    ∷ service_br_pfail_l
    ∷ [])

-- E51: E52's data in reverse order, and BUT SERVICE (1).
unfoldable pub e51_addr : ℕ → ℕ → ℕ
e51_addr e52_d but_service_1 =
    lines (bit 3 e52_d ∷ bit 2 e52_d ∷ bit 1 e52_d ∷ bit 0 e52_d ∷ but_service_1 ∷ [])

-- E51's data for the conditions that the processor models: PE and PFAIL are never up.
unfoldable pub service_roms : ℕ → ℕ → ℕ → ℕ → ℕ → ℕ
unfolding e52_addr e51_addr e52_rom e51_rom
service_roms tbit_trap stov bus_error mmu_kte ir_code =
    get_or e51_rom
      (e51_addr (get_or e52_rom (e52_addr tbit_trap stov bus_error 0 mmu_kte 0 ir_code 1) 0) 1) 0

unfoldable pub e51_enab_grants : ℕ → ℕ
e51_enab_grants d = bit 7 d

unfoldable pub service_vector : ℕ → ℕ → ℕ → ℕ
service_vector d kte pe = lines (0 ∷ 0 ∷ bit 6 d ∷ bit 5 d ∷ bit 4 d ∷ kte ∷ pe ∷ kte ∷ [])

-- E62: IR10 CBIT B00 CC N IR09 IR06 IR07 IR08.
unfoldable pub e62_addr : ℕ → ℕ → ℕ → ℕ → ℕ
e62_addr ir breg0 cbit cc_n =
    lines (bit 10 ir ∷ cbit ∷ breg0 ∷ cc_n ∷ bit 9 ir ∷ bit 6 ir ∷ bit 7 ir ∷ bit 8 ir ∷ [])

unfoldable pub e62_data : ℕ → ℕ → ℕ → ℕ → ℕ
unfolding e62_addr e62_rom
e62_data ir breg0 cbit cc_n = get_or e62_rom (e62_addr ir breg0 cbit cc_n) 0

-- The modes of the B register: hold, left, right, load. On a right shift bit 7 takes a line of
-- its own.
unfoldable pub breg_update : ℕ → ℕ → ℕ → ℕ → ℕ → ℕ
breg_update reg mode load_data shift_in shift_in_07 =
    if mode == 0
    then reg
    else if mode == 1
    then (reg * 2 + shift_in % 2) % 2 ^ 16
    else if mode == 2
    then bit_or (bit_or (bit_and (reg / 2) 0xff7f) (shift_in_07 % 2 * 2 ^ 7))
        (shift_in % 2 * 2 ^ 15)
    else if mode == 3
    then load_data
    else reg

-- One shift of B under E62 where E87 leaves B MODE high and has the shift multiplexer take SERIAL
-- SHIFT: the new B and ROT CBIT. SHIFT IN 07 is
-- SERIAL SHIFT for a byte and B08 for a word.
unfoldable pub shift_step : Bool → ℕ → ℕ → ℕ → ℕ → ℕ → ℕ × ℕ
unfolding e62_data breg_update
shift_step byte ir b cbit cc_n ss_out =
    let d = e62_data ir (b % 2) cbit cc_n in
    (
      breg_update b (bit_or (bit 1 d) (bit 2 d * 2)) ss_out (bit 0 d)
          (if byte then bit 0 d else bit 8 b),
      bit 3 d,
    )
