-- ===== src/Kd11ea/Mmu.antt =====
-- Memory management (pdp11/kd11ea/mmu.c and mmu.h, and the wiring of the M8265 PROMs from
-- pdp11/kd11ea/rom_wiring.h). `page` is `none` where the source has -1; the traces are left out.
pub mod Roms
pub mod Wiring
pub mod Relocation
pub mod Abort
pub mod Status
pub mod Registers
use ll.Prelude.{
  ℕ, ◌+◌, ◌-◌, ◌*◌, ◌/◌, ◌%◌, ◌^◌, bit_and, bit_or, Bool, true, false, ◌&&◌, ◌||◌, not, Option,
  none, some, leb, ltb, ◌==◌, if◌then◌else◌, truthy, as_bit, bit, get_or,
}
use ll.Kd11ea.Mmu.Roms.{m8265_e74_rom, m8265_e75_rom, m8265_e76_rom, m8265_e77_rom, m8265_e83_rom}
use ll.Kd11ea.Mmu.Wiring.{
  m8265_e74_e75_addr, m8265_e76_e77_addr, m8265_e83_addr, m8265_e54_io_page_enabled,
  m8265_e81_general_enabled, m8265_e118_par_pdr_enabled,
}

abbrev pub sr0_abort_nr : ℕ
sr0_abort_nr = 0x8000

abbrev pub sr0_abort_pl : ℕ
sr0_abort_pl = 0x4000

abbrev pub sr0_abort_ro : ℕ
sr0_abort_ro = 0x2000

abbrev pub sr0_abort_mask : ℕ
sr0_abort_mask = 0xe000

pub record Mmu : Type 0 where
  pub par : ℕ → ℕ
  pub pdr : ℕ → ℕ
  pub sr0 : ℕ
  pub sr2 : ℕ
  pub page : Option ℕ
  pub mode : ℕ

unfoldable pub mmu_init : Mmu
mmu_init = record { par = λ _. 0; pdr = λ _. 0; sr0 = 0; sr2 = 0; page = none; mode = 0 }

unfoldable pub mmu_bus_init : Bool → Mmu → Mmu
mmu_bus_init init_l mmu = if init_l then mmu else record mmu { sr0 = 0 }

-- The outputs idle high.
pub read_e74_e75 : ℕ → ℕ → ℕ → Bool → ℕ
unfolding m8265_e74_rom m8265_e75_rom m8265_e74_e75_addr
read_e74_e75 pba c1 c0 e74 =
    if not (m8265_e54_io_page_enabled pba) || not (m8265_e81_general_enabled pba)
    then 0x0f
    else get_or (if e74 then m8265_e74_rom else m8265_e75_rom)
        (m8265_e74_e75_addr pba c1 c0 (as_bit e74)) 0

pub read_e76_e77 : ℕ → ℕ → ℕ → Bool → ℕ
unfolding m8265_e76_rom m8265_e77_rom m8265_e76_e77_addr
read_e76_e77 pba c1 c0 e76 =
    if not (m8265_e54_io_page_enabled pba) || not (m8265_e118_par_pdr_enabled pba)
    then 0x0f
    else get_or (if e76 then m8265_e76_rom else m8265_e77_rom) (m8265_e76_e77_addr pba c1 c0) 0

-- PBA08 selects the register set.
abbrev pub apr_index : ℕ → ℕ
apr_index pba = bit_or (bit 8 pba * 8) (pba / 2 % 8)

-- What `mmu_translate` returns: `ok` is false for -1.
pub record Translation : Type 0 where
  pub ok : Bool
  pub pba : ℕ
  pub mmu : Mmu

-- SR0 6:1, the mode and the page.
abbrev pub sr0_place : ℕ → ℕ → ℕ
sr0_place mode page = bit_or (bit_and mode 3 * 2 ^ 5) (page * 2)

abbrev pub frozen : ℕ → Bool
frozen sr0 = truthy (bit_and sr0 sr0_abort_mask)

-- The abort lines of E83, as bits of SR0.
pub abort_flags : ℕ → ℕ → ℕ → ℕ → ℕ → ℕ → ℕ
unfolding m8265_e83_rom m8265_e83_addr
abort_flags c1 c0 illegal_mode acf compare ed =
    let e83 = get_or m8265_e83_rom (m8265_e83_addr c1 c0 1 illegal_mode acf compare ed) 0 in
    bit_or
      (bit_or (if truthy (bit 0 e83) then sr0_abort_nr else 0)
        (if truthy (bit 1 e83) then sr0_abort_pl else 0))
      (if truthy (bit 2 e83) then sr0_abort_ro else 0)

abbrev pub page_of : ℕ → ℕ
page_of vba = vba / 2 ^ 13 % 8

abbrev pub block_of : ℕ → ℕ
block_of vba = vba / 2 ^ 6 % 2 ^ 7

abbrev pub apr_of : ℕ → ℕ → ℕ
apr_of vba mode = (if mode == 3 then 8 else 0) + page_of vba

-- `((paf + block) & 0x1FFF) << 6 | disp`, on 18 bits.
abbrev pub relocated : ℕ → ℕ → ℕ
relocated par vba = bit_or ((par % 2 ^ 12 + block_of vba) % 2 ^ 13 * 2 ^ 6) (vba % 2 ^ 6) % 2 ^ 18

-- Whether the block number is past the length field, or at it where the page grows down.
abbrev pub length_compare : ℕ → ℕ → Bool
length_compare pdr vba =
    let plf = bit_and pdr 0x7f00 / 2 ^ 8 in
    ltb plf (block_of vba) || truthy (bit_and pdr 8) && block_of vba == plf

abbrev pub follow : Mmu → ℕ → ℕ → Mmu
follow mmu vba mode = record mmu {
  sr0 =
      if frozen mmu.sr0
      then mmu.sr0
      else bit_or (bit_and mmu.sr0 0xff81) (sr0_place mode (page_of vba));
  page = some (apr_of vba mode);
  mode = mode;
}

-- SR0 keeps the flags of the first fault.
abbrev pub checked : Mmu → ℕ → ℕ → ℕ → ℕ → Translation
checked mapped vba mode pba aborts =
    if truthy aborts
    then record {
      ok = false;
      pba = pba;
      mmu = record mapped {
        sr0 =
            if frozen mapped.sr0
            then mapped.sr0
            else bit_or (bit_or (bit_and mapped.sr0 0xff81) aborts) (sr0_place mode (page_of vba));
      };
    }
    else record { ok = true; pba = pba; mmu = mapped }

-- `bus` is `none` for MMU_MAP, else the transfer type.
unfoldable pub mmu_translate : Mmu → ℕ → ℕ → Option ℕ → Bool → Translation
unfolding abort_flags
mmu_translate mmu vba mode bus relocate =
    if not relocate
    then record {
      ok = true;
      pba = if bit_and vba 0xe000 == 0xe000 then bit_or 0x30000 vba else vba;
      mmu = record mmu { page = none };
    }
    else let mapped = follow mmu vba mode in
      let pdr = mmu.pdr (apr_of vba mode) in
      let pba = relocated (mmu.par (apr_of vba mode)) vba in
      elim bus [
        | none ↦ record { ok = true; pba = pba; mmu = mapped }
        | some type ↦
            let aborts =
              abort_flags (bit 1 type) (bit 0 type) (if bit 1 mode == bit 0 mode then 0 else 1)
                (pdr / 2 % 4) (as_bit (length_compare pdr vba)) (as_bit (truthy (bit_and pdr 8))) in
            checked mapped vba mode pba aborts
      ]

-- Byte lanes loaded by the LOAD LOW and LOAD HIGH strobes, which are low when they load.
unfoldable pub lanes : ℕ → ℕ → ℕ → ℕ → ℕ
lanes old word low_l high_l =
    let mask = bit_or (if truthy low_l then 0 else 0x00ff) (if truthy high_l then 0 else 0xff00) in
    bit_or (bit_and old (0xffff - mask)) (bit_and word mask)

-- A register that no PROM selects reads as 0.
unfoldable pub mmu_read : Mmu → ℕ → ℕ
unfolding read_e76_e77 read_e74_e75
mmu_read mmu address =
    let addr = address % 2 ^ 18 in
    let d = read_e76_e77 addr 0 0 true in
    let e = read_e74_e75 addr 0 0 true in
    if bit 2 d == 0
    then if truthy (bit 0 d) then mmu.par (apr_index addr) else mmu.pdr (apr_index addr)
    else if bit 2 e == 0
    then if truthy (bit 0 e) then mmu.sr0 else mmu.sr2
    else 0

abbrev pub put : (ℕ → ℕ) → ℕ → ℕ → ℕ → ℕ
put f i v j = if i == j then v else f j

unfoldable pub mmu_write : Mmu → ℕ → ℕ → Bool → Mmu
unfolding read_e76_e77 read_e74_e75 lanes
mmu_write mmu address word is_byte =
    let addr = address % 2 ^ 18 in
    let c0 = as_bit is_byte in
    let i = apr_index addr in
    let d = read_e76_e77 addr 1 c0 false in
    let e = read_e74_e75 addr 1 c0 false in
    if bit 3 d == 0 || bit 2 d == 0
    then record mmu {
      par = put mmu.par i (bit_and (lanes (mmu.par i) word (bit 2 d) (bit 3 d)) 0x0fff);
    }
    else if bit 1 d == 0 || bit 0 d == 0
    then record mmu {
      pdr =
          put mmu.pdr i
            (bit_and (bit_and (lanes (mmu.pdr i) word (bit 0 d) (bit 1 d)) 0x7f4e) 0xffbf);
    }
    else if bit 1 e == 0 || bit 0 e == 0
    then record mmu {
      sr0 =
          bit_or (bit_and mmu.sr0 0x1efe) (bit_and (lanes mmu.sr0 word (bit 0 e) (bit 1 e)) 0xe101);
    }
    else mmu

-- Whether a write is one to SR0, a PAR or a PDR.
unfoldable pub mmu_kt_write : ℕ → ℕ → Bool
unfolding read_e76_e77 read_e74_e75
mmu_kt_write pba c0 =
    let e75 = read_e74_e75 (pba % 2 ^ 18) 1 c0 false in
    let e77 = read_e76_e77 (pba % 2 ^ 18) 1 c0 false in
    bit 0 e75 == 0
    || bit 1 e75 == 0
    || bit 2 e77 == 0
    || bit 3 e77 == 0
    || bit 0 e77 == 0
    || bit 1 e77 == 0
