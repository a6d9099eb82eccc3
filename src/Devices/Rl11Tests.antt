-- ===== src/Devices/Rl11Tests.antt =====
-- The RL11 (pdp11/rl11/rl11.c) at concrete inputs.
use ll.Prelude.{ℕ, true, false, none, some, List, [], ◌∷◌, arith, ◌==◌, if◌then◌else◌}
use ll.Kd11ea.Int.{int_init}
use ll.Devices.DiskTests.{log}
use ll.Devices.Rl11.{Rl11}
use ll.Devices.Rl11.Registers.{rl11_write}
use ll.Devices.Rl11.OnDisk.{OnDisk, rl11_write-OnDisk}
use ll.Devices.Rl11.Summary.{Summary}

abbrev pack : List ℕ
pack = 1 ∷ 2 ∷ 3 ∷ 4 ∷ 5 ∷ 6 ∷ 7 ∷ []

-- A read of three words from the first sector of drive 1, an RL01 with its heads at the last
-- cylinder, with INT ENB.
abbrev reading : Rl11
reading = record {
  init_l = true;
  rlcs = 0x014c;
  rlba = 0x1000;
  rlda = 0;
  rlmp = 0xfffd;
  disk = λ i. if i == 1 then some pack else none;
  read_only = λ _. false;
  is_rl02 = λ _. false;
  cyl = λ _. 255;
  hd = λ _. 0;
  stat = λ _. 0;
}

-- A seek outward from the last cylinder, once the controller is ready.
abbrev seeking : Rl11
seeking = record reading { rlcs = 0x0180; rlda = 0x0085 }

seeking-OnDisk : OnDisk seeking
unfolding OnDisk
seeking-OnDisk d = (omega arith, omega arith)

rl11_write-OnDisk_example : OnDisk (rl11_write log 0o774400 0x0106 false seeking int_init []).0
rl11_write-OnDisk_example =
    rl11_write-OnDisk log 0o774400 0x0106 false seeking int_init [] seeking-OnDisk
