-- ===== src/Kd11ea/Ucode.antt =====
-- The control store of the processor (pdp11/kd11ea/ucode_rom.h) and the fields of its micro-words
-- of 48 bits (pdp11/kd11ea/kd11ea.h).
pub mod E97
pub mod E98
pub mod E99
pub mod E100
pub mod E103
pub mod E104
pub mod E105
pub mod E106
pub mod E107
pub mod E108
pub mod E109
pub mod E110
use ll.Prelude.{ℕ, zero, suc, ◌+◌, ◌-◌, ◌*◌, ◌/◌, ◌%◌, ◌^◌, List, [], ◌∷◌, bit, get_or}
use ll.Kd11ea.Decode.{lines}
use ll.Kd11ea.Ucode.E97.{m8266_e97_ucode_rom}
use ll.Kd11ea.Ucode.E98.{m8266_e98_ucode_rom}
use ll.Kd11ea.Ucode.E99.{m8266_e99_ucode_rom}
use ll.Kd11ea.Ucode.E100.{m8266_e100_ucode_rom}
use ll.Kd11ea.Ucode.E103.{m8266_e103_ucode_rom}
use ll.Kd11ea.Ucode.E104.{m8266_e104_ucode_rom}
use ll.Kd11ea.Ucode.E105.{m8266_e105_ucode_rom}
use ll.Kd11ea.Ucode.E106.{m8266_e106_ucode_rom}
use ll.Kd11ea.Ucode.E107.{m8266_e107_ucode_rom}
use ll.Kd11ea.Ucode.E108.{m8266_e108_ucode_rom}
use ll.Kd11ea.Ucode.E109.{m8266_e109_ucode_rom}
use ll.Kd11ea.Ucode.E110.{m8266_e110_ucode_rom}

unfoldable pub ucode_addr : ℕ → ℕ
ucode_addr mpc = lines (
    bit 6 mpc
    ∷ bit 4 mpc
    ∷ bit 7 mpc
    ∷ bit 3 mpc
    ∷ bit 2 mpc
    ∷ bit 1 mpc
    ∷ bit 0 mpc
    ∷ bit 8 mpc
    ∷ bit 5 mpc
    ∷ [])

unfoldable pub ucode_reverse_nibble : ℕ → ℕ
ucode_reverse_nibble v = lines (bit 3 v ∷ bit 2 v ∷ bit 1 v ∷ bit 0 v ∷ [])

abbrev pub nibble : List ℕ → ℕ → ℕ
nibble rom a = ucode_reverse_nibble (get_or rom a 0)

-- The nibbles fill the word from the lowest up and do not overlap, so that the `or` is a sum.
unfoldable pub ucode_read : ℕ → ℕ
unfolding ucode_addr ucode_reverse_nibble m8266_e97_ucode_rom m8266_e98_ucode_rom
    m8266_e99_ucode_rom m8266_e100_ucode_rom m8266_e103_ucode_rom m8266_e104_ucode_rom
    m8266_e105_ucode_rom m8266_e106_ucode_rom m8266_e107_ucode_rom m8266_e108_ucode_rom
    m8266_e109_ucode_rom m8266_e110_ucode_rom
ucode_read mpc =
    let a = ucode_addr (mpc % 2 ^ 9) in
    nibble m8266_e110_ucode_rom a
    + nibble m8266_e109_ucode_rom a * 2 ^ 4
    + nibble m8266_e108_ucode_rom a * 2 ^ 8
    + nibble m8266_e107_ucode_rom a * 2 ^ 12
    + nibble m8266_e106_ucode_rom a * 2 ^ 16
    + nibble m8266_e99_ucode_rom a * 2 ^ 20
    + nibble m8266_e97_ucode_rom a * 2 ^ 24
    + get_or m8266_e98_ucode_rom a 0 * 2 ^ 28
    + nibble m8266_e100_ucode_rom a * 2 ^ 32
    + nibble m8266_e104_ucode_rom a * 2 ^ 36
    + nibble m8266_e103_ucode_rom a * 2 ^ 40
    + nibble m8266_e105_ucode_rom a * 2 ^ 44

-- The lowest `n` bits in reverse order.
unfoldable pub reversed : ℕ → ℕ → ℕ
reversed zero w = 0
reversed (suc n) w = w % 2 * 2 ^ n + reversed n (w / 2)

unfoldable pub ufr : ℕ → ℕ → ℕ → ℕ
unfolding reversed
ufr w hi lo = reversed (hi - lo + 1) (w / 2 ^ lo)

unfoldable pub uw_next_mpc : ℕ → ℕ
unfolding reversed
uw_next_mpc w = reversed 9 w

abbrev pub uw_misc : ℕ → ℕ
uw_misc w = ufr w 11 9

abbrev pub misc_nop : ℕ
misc_nop = 0

abbrev pub misc_load_ir : ℕ
misc_load_ir = 1

abbrev pub misc_load_psw : ℕ
misc_load_psw = 2

abbrev pub misc_load_cc : ℕ
misc_load_cc = 3

abbrev pub misc_but_dest : ℕ
misc_but_dest = 4

abbrev pub misc_enab_stov : ℕ
misc_enab_stov = 5

abbrev pub misc_load_count : ℕ
misc_load_count = 6

abbrev pub misc_clk_count : ℕ
misc_clk_count = 7

abbrev pub uw_buf_dat_tran : ℕ → ℕ
uw_buf_dat_tran w = bit 12 w

abbrev pub uw_bus_ctl : ℕ → ℕ
uw_bus_ctl w = ufr w 14 13

abbrev pub uw_enab_maint : ℕ → ℕ
uw_enab_maint w = bit 15 w

abbrev pub uw_long_cycle_l : ℕ → ℕ
uw_long_cycle_l w = bit 16 w

abbrev pub uw_load_ba : ℕ → ℕ
uw_load_ba w = bit 17 w

abbrev pub uw_aux_control : ℕ → ℕ
uw_aux_control w = bit 18 w

abbrev pub uw_alu_func : ℕ → ℕ
uw_alu_func w = w / 2 ^ 19 % 2 ^ 5

abbrev pub uw_bbxovxdbe : ℕ → ℕ
uw_bbxovxdbe w = w / 2 ^ 24 % 2 ^ 4

abbrev pub uw_ssmux : ℕ → ℕ
uw_ssmux w = ufr w 29 28

abbrev pub uw_amux_l : ℕ → ℕ
uw_amux_l w = ufr w 31 30

abbrev pub uw_but_bits : ℕ → ℕ
uw_but_bits w = w / 2 ^ 32 % 2 ^ 4

abbrev pub uw_spa_src_sel : ℕ → ℕ
uw_spa_src_sel w = ufr w 37 36

abbrev pub uw_spa_dst_sel : ℕ → ℕ
uw_spa_dst_sel w = ufr w 39 38

abbrev pub uw_force_rsv1_l : ℕ → ℕ
uw_force_rsv1_l w = bit 40 w

abbrev pub uw_prev_mode_l : ℕ → ℕ
uw_prev_mode_l w = bit 41 w

abbrev pub uw_but_service : ℕ → ℕ
uw_but_service w = bit 42 w

abbrev pub uw_force_kernel : ℕ → ℕ
uw_force_kernel w = bit 43 w

abbrev pub uw_rom_spa : ℕ → ℕ
uw_rom_spa w = ufr w 47 44
