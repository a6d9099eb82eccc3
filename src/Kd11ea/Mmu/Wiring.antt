-- ===== src/Kd11ea/Mmu/Wiring.antt =====
-- How the address lines of the M8265 PROMs are wired (pdp11/kd11ea/rom_wiring.h).
use ll.Prelude.{ℕ, ◌*◌, ◌%◌, ◌^◌, bit_and, bit_or, Bool, ◌==◌, bit}

unfoldable pub m8265_e74_e75_addr : ℕ → ℕ → ℕ → ℕ → ℕ
m8265_e74_e75_addr pba c1 c0 e74 = bit_or (e74 % 2) (
    bit_or (bit 1 pba * 2 ^ 1) (
      bit_or (bit 2 pba * 2 ^ 2) (
        bit_or (bit 3 pba * 2 ^ 3) (
          bit_or (bit 7 pba * 2 ^ 4)
            (bit_or (pba % 2 * 2 ^ 5) (bit_or (c0 % 2 * 2 ^ 6) (c1 % 2 * 2 ^ 7)))))))

unfoldable pub m8265_e76_e77_addr : ℕ → ℕ → ℕ → ℕ
m8265_e76_e77_addr pba c1 c0 = bit_or (bit 5 pba) (
    bit_or (bit 6 pba * 2 ^ 1) (
      bit_or (bit 8 pba * 2 ^ 2) (
        bit_or (bit 9 pba * 2 ^ 3) (
          bit_or (bit 11 pba * 2 ^ 4)
            (bit_or (pba % 2 * 2 ^ 5) (bit_or (c0 % 2 * 2 ^ 6) (c1 % 2 * 2 ^ 7)))))))

unfoldable pub m8265_e83_addr : ℕ → ℕ → ℕ → ℕ → ℕ → ℕ → ℕ → ℕ
m8265_e83_addr c1 c0 disable_msyn_l illegal_mode acf compare ed = bit_or (ed % 2) (
    bit_or (compare % 2 * 2 ^ 1) (
      bit_or (acf % 2 * 2 ^ 2) (
        bit_or (bit 1 acf * 2 ^ 3) (
          bit_or (illegal_mode % 2 * 2 ^ 4)
            (bit_or (disable_msyn_l % 2 * 2 ^ 5) (bit_or (c0 % 2 * 2 ^ 6) (c1 % 2 * 2 ^ 7)))))))

abbrev pub m8265_e54_io_page_enabled : ℕ → Bool
m8265_e54_io_page_enabled pba = bit_and pba 0x3f400 == 0x3f400

abbrev pub m8265_e81_general_enabled : ℕ → Bool
m8265_e81_general_enabled pba = bit_and pba 0x0b70 == 0x0b70

abbrev pub m8265_e118_par_pdr_enabled : ℕ → Bool
m8265_e118_par_pdr_enabled pba = bit_and pba 0x0090 == 0x0080
