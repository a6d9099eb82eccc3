-- ===== src/Devices/DiskTests.antt =====
-- The paper tape and the disk at concrete inputs. Memory is the list of what is written to it, and
-- answers every cycle.
use mathlib.Core.List.{mem-cons_self}
use ll.Prelude.{
  ℕ, ◌+◌, ◌*◌, ◌≡◌, refl, true, false, Option, none, some, List, [], ◌∷◌, arith, ◌==◌,
  if◌then◌else◌, drop,
}
use ll.Kd11ea.Int.{IntController, int_init, int_request}
use ll.Kd11ea.Int.Pending.{Pending}
use ll.Prelude.Seq.{find_index}
use ll.Devices.Quiet.{here, next, own}
use ll.Devices.Pc11.{Pc11, pc11_init, pc11_pps, pc11_ie, ptr_vec, ptp_vec, is_up}
use ll.Devices.Pc11.Write.{pc11_write}
use ll.Devices.Pc11.Requests.{Event}
use ll.Devices.Pc11.Interrupts.{pc11-Pending-enabled}
use ll.Devices.Rk11.{Rk05, Drive}
use ll.Devices.Rk11.Transfer.{Memory, words, fetch_words, compare_words, finish, rk05_go}
use ll.Devices.Rk11.Ends.{Ends}
use ll.Devices.Rk11.Check.{rk05_go-never}
use ll.Devices.Rk11.WriteCommand.{fetched, after_write, rk05_go-write}
use ll.Devices.Rk11.CheckCommand.{rk05_go-check}
use ll.Devices.Rk11.Reach.{ready}
use ll.Devices.Rk11.ReadCommand.{start, rk05_go-read}
use ll.Devices.Rk11.Reading.{read_once}

-- The punch is ready, so setting its INT ENB asks for an interrupt.
abbrev asked : Pc11 × IntController
asked = let w = pc11_write 0 pc11_pps pc11_ie pc11_init int_init in (w.1, w.2)

pc11-Pending-enabled_example :
    (Pending asked.1 ptr_vec → is_up asked.0.prs pc11_ie ≡ true)
    × (Pending asked.1 ptp_vec → is_up asked.0.pps pc11_ie ≡ true)
pc11-Pending-enabled_example =
    pc11-Pending-enabled pc11_init asked.0 asked.1
      (next here (own (Event.write 0 pc11_pps pc11_ie pc11_init int_init)))

asked-Pending : Pending asked.1 ptp_vec
unfolding pc11_write pc11_init int_init int_request find_index
asked-Pending = mem-cons_self

abbrev last : ℕ
last = 202 * 32 + 16 + 11

abbrev pub log : Memory (List (ℕ × ℕ))
log = record { dati = λ addr m. (some addr, m); dato = λ addr word m. (true, (addr, word) ∷ m) }

-- Three words, and a byte.
abbrev pack : Drive
pack = record { bytes = 1 ∷ 2 ∷ 3 ∷ 4 ∷ 5 ∷ 6 ∷ 7 ∷ []; read_only = true }

abbrev drives : ℕ → Option Drive
drives i = if i == 0 then some pack else none

abbrev reading : Rk05
reading = record {
  init_l = true;
  rkds = 0;
  rker = 0;
  rkcs = 0x44;
  rkwc = 0xfffe;
  rkba = 0x1000;
  rkda = 0;
  disk = drives;
}

abbrev checking : Rk05
checking = record reading { rkcs = 0x46; rkda = 1 }

rk05_go-never_example : rk05_go log 1000 checking int_init [] ≡ none
rk05_go-never_example =
    rk05_go-never log 1000 checking pack int_init [] refl refl (omega arith) (omega arith)
      (omega arith)

-- The same at the start of the file, and with memory that answers its address.
abbrev checking_first : Rk05
checking_first = record reading { rkcs = 0x46 }

rk05_go-check_example :
    rk05_go log 2 checking_first int_init []
    ≡ some (
        finish log
          (ready checking_first)
          2
          0
          (compare_words log (words 2 (drop 0 pack.bytes)) (start (ready checking_first) []))
          int_init)
rk05_go-check_example =
    rk05_go-check log 2 checking_first pack int_init [] refl refl (omega arith) (omega arith)
      (omega arith) (omega arith)

abbrev blank : Drive
blank = record { bytes = 1 ∷ 2 ∷ []; read_only = false }

abbrev writing : Rk05
writing = record {
  init_l = true;
  rkds = 0;
  rker = 0;
  rkcs = 0x42;
  rkwc = 0xfffe;
  rkba = 0x1234;
  rkda = 0;
  disk = λ i. if i == 0 then some blank else none;
}

all_answered : (fetched log (ready writing) []).1.aborted ≡ false
unfolding fetch_words
all_answered = refl

rk05_go-write_example :
    rk05_go log 0 writing int_init [] ≡ some (after_write log (ready writing) blank int_init [])
rk05_go-write_example =
    rk05_go-write log 0 writing blank int_init [] refl refl refl (omega arith) (omega arith)
      all_answered

rk05_go-read_example :
    rk05_go log 0 reading int_init []
    ≡ some (
        finish log
          (ready reading)
          2
          0
          (read_once log 2 (drop 0 pack.bytes) (start (ready reading) []))
          int_init)
rk05_go-read_example =
    rk05_go-read log 0 reading pack int_init [] refl refl (omega arith) (omega arith)
