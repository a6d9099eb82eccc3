-- ===== src/Devices/Rl11.antt =====
-- The RL11 disk controller with RL01 and RL02 drives (pdp11/rl11/rl11.c, rl11.h), wired as
-- `machine_init` wires it. Its files and its bus cycles are modelled as those of the RK11 are.
pub mod Branch
pub mod Ends
pub mod Moved
pub mod OnDisk
pub mod ReadCommand
pub mod Reading
pub mod Summary
pub mod Transfer
pub mod Registers
use ll.Prelude.{
  ℕ, ◌+◌, ◌-◌, ◌*◌, ◌/◌, ◌%◌, ◌^◌, bit_and, bit_or, Bool, true, false, Option, none, some, List,
  ◌==◌, if◌then◌else◌, truthy, bit, ltb, leb,
}
use ll.Kd11ea.Int.{IntController}
use ll.Devices.{cpu_irq_set, cpu_irq_clr}

-- RLCS
abbrev pub rlcs_drdy : ℕ
rlcs_drdy = 0x0001

abbrev pub rlcs_ie : ℕ
rlcs_ie = 0x0040

abbrev pub rlcs_crdy : ℕ
rlcs_crdy = 0x0080

abbrev pub rlcs_incmp : ℕ
rlcs_incmp = 0x0400

abbrev pub rlcs_crc : ℕ
rlcs_crc = 0x0800

abbrev pub rlcs_dlt : ℕ
rlcs_dlt = 0x1000

abbrev pub rlcs_nxm : ℕ
rlcs_nxm = 0x2000

abbrev pub rlcs_dre : ℕ
rlcs_dre = 0x4000

abbrev pub rlcs_err : ℕ
rlcs_err = 0x8000

-- The status of a drive.
abbrev pub rlds_lock : ℕ
rlds_lock = 0x0005

abbrev pub rlds_bho : ℕ
rlds_bho = 0x0008

abbrev pub rlds_hdo : ℕ
rlds_hdo = 0x0010

abbrev pub rlds_hd : ℕ
rlds_hd = 0x0040

abbrev pub rlds_rl02 : ℕ
rlds_rl02 = 0x0080

abbrev pub rlds_dse : ℕ
rlds_dse = 0x0100

abbrev pub rlds_vck : ℕ
rlds_vck = 0x0200

abbrev pub rlds_wge : ℕ
rlds_wge = 0x0400

abbrev pub rlds_wlk : ℕ
rlds_wlk = 0x2000

abbrev pub rlds_err : ℕ
rlds_err = 0xdf00

abbrev pub rl_numwd : ℕ
rl_numwd = 128

abbrev pub rl_numsc : ℕ
rl_numsc = 40

abbrev pub rl_numsf : ℕ
rl_numsf = 2

abbrev pub rl01_numcy : ℕ
rl01_numcy = 256

abbrev pub rl02_numcy : ℕ
rl02_numcy = 512

abbrev pub rl_numdr : ℕ
rl_numdr = 4

abbrev pub rl01_size : ℕ
rl01_size = rl01_numcy * rl_numsf * rl_numsc * rl_numwd * 2

abbrev pub rl_vec : ℕ
rl_vec = 0o160

pub record Rl11 : Type 0 where
  pub init_l : Bool
  pub rlcs : ℕ
  pub rlba : ℕ
  pub rlda : ℕ
  pub rlmp : ℕ
  pub disk : ℕ → Option (List ℕ)
  pub read_only : ℕ → Bool
  pub is_rl02 : ℕ → Bool
  pub cyl : ℕ → ℕ
  pub hd : ℕ → ℕ
  pub stat : ℕ → ℕ

-- An array with one entry replaced.
abbrev pub put {ℓ} : {A : Type ℓ} → ℕ → A → (ℕ → A) → ℕ → A
put i x f = λ k. if k == i then x else f k

unfoldable pub rl11_init : Rl11
rl11_init = record {
  init_l = true;
  rlcs = rlcs_crdy;
  rlba = 0;
  rlda = 0;
  rlmp = 0;
  disk = λ _. none;
  read_only = λ _. false;
  is_rl02 = λ _. false;
  cyl = λ _. 0;
  hd = λ _. 0;
  stat = λ _. 0;
}

abbrev pub get_func : ℕ → ℕ
get_func cs = cs / 2 % 8

abbrev pub get_drive : ℕ → ℕ
get_drive cs = cs / 2 ^ 8 % 4

abbrev pub get_mex : ℕ → ℕ
get_mex cs = cs / 2 ^ 4 % 4

abbrev pub da_sect : ℕ → ℕ
da_sect da = da % 2 ^ 6

abbrev pub da_hd : ℕ → ℕ
da_hd da = bit 6 da

abbrev pub da_cyl_rw : ℕ → ℕ
da_cyl_rw da = da / 2 ^ 7 % 2 ^ 9

abbrev pub max_cyl : Bool → ℕ
max_cyl rl02 = if rl02 then rl02_numcy else rl01_numcy

abbrev pub chs_to_offset : ℕ → ℕ → ℕ → ℕ
chs_to_offset cyl hd sect = (cyl * rl_numsf * rl_numsc + hd * rl_numsc + sect) * rl_numwd * 2

unfoldable pub rl11_set_done : Rl11 → IntController → Rl11 × IntController
unfolding cpu_irq_set
rl11_set_done rl ic =
    let cs = bit_or rl.rlcs rlcs_crdy in
    (record rl { rlcs = cs }, if truthy (bit_and cs rlcs_ie) then cpu_irq_set rl_vec 5 ic else ic)

-- The bits of RLCS that report an error.
abbrev pub error_bits : ℕ → ℕ
error_bits bits = bit_or bits rlcs_err

unfoldable pub rl11_set_err : ℕ → Rl11 → Rl11
rl11_set_err bits rl = record rl { rlcs = bit_or rl.rlcs (error_bits bits) }

-- BUS INIT: the drives keep their state, and drive 0 is selected.
unfoldable pub rl11_bus_init : Bool → Rl11 → IntController → Rl11 × IntController
unfolding cpu_irq_clr
rl11_bus_init true rl ic = (record rl { init_l = true }, ic)
rl11_bus_init false rl ic =
    let ready : ℕ = elim (rl.disk 0) [ none ↦ rlcs_crdy | some _ ↦ bit_or rlcs_crdy rlcs_drdy ] in
    let cs =
      if truthy (bit_and (rl.stat 0) rlds_err)
      then bit_or ready (bit_or rlcs_dre rlcs_err)
      else ready in
    (record rl { init_l = false; rlcs = cs; rlba = 0; rlda = 0 }, cpu_irq_clr rl_vec ic)
