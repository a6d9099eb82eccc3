-- ===== src/Kd11ea/Tests.antt =====
-- The processor's parts at concrete inputs.
use ll.Prelude.{
  ℕ, ◌+◌, ◌*◌, ◌%◌, ◌^◌, ◌≡◌, refl, true, false, ◌&&◌, not, none, some, [], ◌∷◌, arith, ◌==◌,
  if◌then◌else◌, as_bit,
}
use ll.Unibus.{same_level}
use ll.Prelude.Seq.{find_index, swap_out}
use ll.Kd11ea.Int.{
  IntRequest, IntController, int_init, int_request, int_cancel, int_pending, int_ack, arbitrate,
  br_from,
}
use ll.Kd11ea.Int.Arbiter.{highest, arbitrate-eq-highest}
use ll.Kd11ea.Int.Grant.{IsGranted, int_pending-IsGranted}
use ll.Kd11ea.Int.Queue.{IsValid, int_init-IsValid, int_request-IsValid, interrupt-IsValid}
use ll.Kd11ea.Int.Order.{int_ack-int_cancel}
use ll.Kd11ea.Mmu.{Mmu, mmu_translate, mmu_read, mmu_write, mmu_kt_write}
use ll.Kd11ea.Mmu.Relocation.{mmu_translate-pba, mmu_translate-injective}
use ll.Kd11ea.Mmu.Status.{IsTransfer, mmu_translate-IsTransfer}
use ll.Kd11ea.Mmu.Registers.{mmu_read-mmu_write, apr_addr, loaded}

abbrev request : ℕ → ℕ → IntRequest
request v p = record { vector = v; priority = p }

-- The line clock, the disk and the terminal ask one after the other.
abbrev three : IntController
three = (int_request (int_request (int_request int_init 0o60 4).1 0o220 5).1 0o100 6).1

-- What is left of them after the first grant.
abbrev two : IntController
two = record { queue = request 0o60 4 ∷ request 0o220 5 ∷ [] }

abbrev virtual : ℕ
virtual = 0o20100

three-IsValid : IsValid three
three-IsValid =
    int_request-IsValid _ 0o100 6
      (int_request-IsValid _ 0o220 5
        (int_request-IsValid int_init 0o60 4 int_init-IsValid (omega arith) (omega arith))
        (omega arith) (omega arith))
      (omega arith) (omega arith)

abbrev queued : IntController
queued = record { queue = request 0o60 4 ∷ request 0o220 5 ∷ request 0o100 6 ∷ [] }

three-eq : three ≡ queued
unfolding int_request int_init find_index
three-eq = refl

queued-IsValid : IsValid queued
queued-IsValid = rw three-eq at three-IsValid

arbitrate-eq-highest_example : arbitrate 5 0b11010000 ≡ highest 5 1 1 0 1
arbitrate-eq-highest_example = arbitrate-eq-highest 5 0b11010000 (omega arith)

pending_three : int_pending queued 5 ≡ some 2
unfolding int_pending find_index arbitrate br_from
pending_three = refl

int_pending-IsGranted_example : (r : IntRequest) × IsGranted 5 queued.queue 2 r
int_pending-IsGranted_example = int_pending-IsGranted queued 5 2 (omega arith) pending_three

none_above : int_pending queued 6 ≡ none
unfolding int_pending find_index arbitrate br_from
none_above = refl

granted_three :
    int_ack queued 5
    ≡ some (request 0o100 6, record { queue = request 0o60 4 ∷ request 0o220 5 ∷ [] })
unfolding int_ack int_pending find_index arbitrate br_from swap_out
granted_three = refl

interrupt-IsValid_example :
    IsValid (int_request queued 0o64 4).1
    × IsValid (int_cancel queued 0o64)
    × IsValid (record { queue = request 0o60 4 ∷ request 0o220 5 ∷ [] })
interrupt-IsValid_example =
    interrupt-IsValid queued _ 0o64 4 5 (request 0o100 6) queued-IsValid (omega arith) (omega arith)
      granted_three

-- The terminal's two requests and the tape reader's, all at BR4.
int_ack-int_cancel_example :
    int_ack
      (int_cancel (record { queue = request 0o60 4 ∷ request 0o64 4 ∷ request 0o70 4 ∷ [] }) 0o60)
      3
    ≡ some (request 0o70 4, record { queue = request 0o64 4 ∷ [] })
int_ack-int_cancel_example =
    int_ack-int_cancel (request 0o60 4) (request 0o64 4) (request 0o70 4) 4 3 refl refl refl
      (omega arith, omega arith) (omega arith)

-- Every page at 64 blocks from the last, read and write, but user page 1, which is read-only.
abbrev mapped : Mmu
mapped = record {
  par = λ i. i * 64;
  pdr = λ i. if i == 9 then 0x7f02 else 0x7f06;
  sr0 = 1;
  sr2 = 0;
  page = none;
  mode = 0;
}

mmu_translate-pba_example :
    (mmu_translate mapped 0o20100 3 (some 2) true).pba ≡ (9 * 64 * 64 + 0o100) % 2 ^ 18
mmu_translate-pba_example = mmu_translate-pba mapped 0o20100 3 (some 2) true (omega arith)

mmu_translate-IsTransfer_example :
    IsTransfer mapped 0o20100 3 2 (mmu_translate mapped 0o20100 3 (some 2) true)
mmu_translate-IsTransfer_example = mmu_translate-IsTransfer mapped 0o20100 3 2

write_aborts : (mmu_translate mapped 0o20100 3 (some 2) true).ok ≡ false
unfolding mmu_translate
write_aborts = refl

same_address :
    (mmu_translate mapped 0o20100 3 none true).pba
    ≡ (mmu_translate mapped 0o20100 3 (some 0) true).pba
unfolding mmu_translate
same_address = refl

mmu_translate-injective_example : virtual ≡ virtual
mmu_translate-injective_example =
    mmu_translate-injective mapped virtual virtual 3 none (some 0) true (omega arith) (omega arith)
      refl same_address

mmu_read-mmu_write_example :
    let old = mmu_read mapped (apr_addr true 9) in
    let hit = same_level true true && 9 == 9 in
    (mmu_read (mmu_write mapped (apr_addr true 9) 0o17777 false) (apr_addr true 9)
      ≡ (if hit then loaded true old 0o17777 true true else old))
    × (mmu_read (mmu_write mapped (apr_addr true 9 + as_bit true) 0o17777 true) (apr_addr true 9)
        ≡ (if hit then loaded true old 0o17777 (not true) true else old))
mmu_read-mmu_write_example =
    mmu_read-mmu_write mapped true true true 9 9 0o17777 (omega arith) (omega arith)

sr2_strobe : mmu_kt_write 0x3ff7e (as_bit false) ≡ false
unfolding mmu_kt_write
sr2_strobe = refl
