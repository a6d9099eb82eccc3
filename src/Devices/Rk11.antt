-- ===== src/Devices/Rk11.antt =====
-- The RK11-D disk controller (pdp11/rk11/rk11.c, rk11.h), wired as `machine_init` wires it. The
-- controller's bus cycles go to `Memory`, what answers its DMA: a transfer onto the controller's
-- own registers is left out. A disk is the list of the bytes of its file; `fseek` to a place
-- past the end succeeds, `fread` gives the whole words that are there, and `fwrite` past the end
-- fills the gap with zeros, as the standard library does on a regular file.
pub mod Check
pub mod CheckCommand
pub mod Disk
pub mod Ends
pub mod Transfer
pub mod Reach
pub mod ReadCommand
pub mod Reading
pub mod Overwrite
pub mod WriteCommand
pub mod Writing
pub mod Registers
use ll.Prelude.{
  ℕ, ◌+◌, ◌-◌, ◌*◌, ◌/◌, ◌%◌, ◌^◌, bit_and, bit_or, Bool, true, false, Option, none, some, List, [],
  ◌∷◌, ◌==◌, if◌then◌else◌, truthy, bit,
}
use ll.Kd11ea.Int.{IntController}
use ll.Devices.{cpu_irq_set, cpu_irq_clr}

abbrev pub rk_numwd : ℕ
rk_numwd = 256

abbrev pub rk_numsc : ℕ
rk_numsc = 12

abbrev pub rk_numsf : ℕ
rk_numsf = 2

abbrev pub rk_numcy : ℕ
rk_numcy = 203

abbrev pub rk_vec : ℕ
rk_vec = 0o220

-- RKER
abbrev pub rker_wce : ℕ
rker_wce = 0x0001

abbrev pub rker_nxs : ℕ
rker_nxs = 0x0020

abbrev pub rker_nxc : ℕ
rker_nxc = 0x0040

abbrev pub rker_nxd : ℕ
rker_nxd = 0x0080

abbrev pub rker_nxm : ℕ
rker_nxm = 0x0400

abbrev pub rker_wlo : ℕ
rker_wlo = 0x2000

abbrev pub rker_ovr : ℕ
rker_ovr = 0x4000

-- RKCS
abbrev pub rkcs_go : ℕ
rkcs_go = 0x0001

abbrev pub rkcs_mex : ℕ
rkcs_mex = 0x0030

abbrev pub rkcs_ie : ℕ
rkcs_ie = 0x0040

abbrev pub rkcs_done : ℕ
rkcs_done = 0x0080

abbrev pub rkcs_scp : ℕ
rkcs_scp = 0x2000

abbrev pub rkcs_herr : ℕ
rkcs_herr = 0x4000

abbrev pub rkcs_err : ℕ
rkcs_err = 0x8000

-- A drive with its file, and whether it is open for reading only.
pub record Drive : Type 0 where
  pub bytes : List ℕ
  pub read_only : Bool

pub record Rk05 : Type 0 where
  pub init_l : Bool
  pub rkds : ℕ
  pub rker : ℕ
  pub rkcs : ℕ
  pub rkwc : ℕ
  pub rkba : ℕ
  pub rkda : ℕ
  pub disk : ℕ → Option Drive

unfoldable pub rk05_init : Rk05
rk05_init = record {
  init_l = true;
  rkds = 0;
  rker = 0;
  rkcs = rkcs_done;
  rkwc = 0;
  rkba = 0;
  rkda = 0;
  disk = λ _. none;
}

abbrev pub da_sect : ℕ → ℕ
da_sect da = da % 2 ^ 4

abbrev pub da_surf : ℕ → ℕ
da_surf da = bit 4 da

abbrev pub da_cyl : ℕ → ℕ
da_cyl da = da / 2 ^ 5 % 2 ^ 8

abbrev pub da_drive : ℕ → ℕ
da_drive da = da / 2 ^ 13 % 8

abbrev pub da_to_sector : ℕ → ℕ
da_to_sector da = (da_cyl da * rk_numsf + da_surf da) * rk_numsc + da_sect da

-- RKDA after a transfer: the sector that follows, on the same drive.
abbrev pub next_da : ℕ → ℕ → ℕ → ℕ
next_da da sector wc =
    let new_sector = sector + (wc + rk_numwd - 1) / rk_numwd in
    let cyl = new_sector / (rk_numsf * rk_numsc) in
    let surf = new_sector / rk_numsc % rk_numsf in
    let sect = new_sector % rk_numsc in
    bit_or (bit_and da 0xe000) (bit_or (bit_or sect (surf * 2 ^ 4)) (cyl * 2 ^ 5) % 2 ^ 16)

-- The word count, of which 0 stands for the greatest.
abbrev pub word_count : ℕ → ℕ
word_count rkwc = let wc = (0x10000 - rkwc) % 2 ^ 16 in if wc == 0 then 0x10000 else wc

-- Errors of RKER that stop the controller.
abbrev pub hard_errors : ℕ
hard_errors = 0x04e0

unfoldable pub rk05_update_err : Rk05 → Rk05
rk05_update_err rk =
    let cs = if truthy rk.rker then bit_or rk.rkcs rkcs_err else rk.rkcs in
    record rk { rkcs = if truthy (bit_and rk.rker hard_errors) then bit_or cs rkcs_herr else cs }

unfoldable pub rk05_set_done : Rk05 → IntController → Rk05 × IntController
unfolding cpu_irq_set
rk05_set_done rk ic =
    let cs = bit_or rk.rkcs rkcs_done in
    (record rk { rkcs = cs }, if truthy (bit_and cs rkcs_ie) then cpu_irq_set rk_vec 5 ic else ic)

unfoldable pub rk05_bus_init : Bool → Rk05 → IntController → Rk05 × IntController
unfolding cpu_irq_clr
rk05_bus_init true rk ic = (record rk { init_l = true }, ic)
rk05_bus_init false rk ic = (
  record rk {
    init_l = false;
    rker = 0;
    rkwc = 0;
    rkba = 0;
    rkda = 0;
    rkds = bit_and rk.rkds 0x0ffe;
    rkcs = rkcs_done;
  },
  cpu_irq_clr rk_vec ic,
)
