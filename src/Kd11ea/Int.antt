-- ===== src/Kd11ea/Int.antt =====
-- Interrupt requests on BR7-BR4 (pdp11/kd11ea/int.c and int.h, with the wiring of the PROM E29
-- from pdp11/kd11ea/rom_wiring.h). The list holds queue[0] to queue[count - 1]; the array's
-- entries past `count` are never read.
pub mod Arbiter
pub mod Grant
pub mod Queue
pub mod Pending
pub mod Order
use ll.Prelude.{
  ℕ, ◌+◌, ◌*◌, ◌/◌, ◌%◌, ◌^◌, bit_or, Bool, true, false, ◌&&◌, Option, none, some, List, [], ◌∷◌,
  ◌++◌, leb, ◌==◌, if◌then◌else◌, length, get_or, get_elem?, truthy, bit,
}
use ll.Prelude.Seq.{find_index, swap_out}
use ll.Kd11ea.Roms.{e29_rom}

pub record IntRequest : Type 0 where
  pub vector : ℕ
  pub priority : ℕ

pub record IntController : Type 0 where
  pub queue : List IntRequest

abbrev pub int_max_pending : ℕ
int_max_pending = 8

unfoldable pub int_init : IntController
int_init = record { queue = [] }

abbrev pub has_vector : ℕ → IntRequest → Bool
has_vector vector r = r.vector == vector

abbrev pub has_priority : ℕ → IntRequest → Bool
has_priority level r = r.priority == level

-- `false` stands for the return value -1.
unfoldable pub int_request : IntController → ℕ → ℕ → Bool × IntController
int_request ic vector priority = elim (find_index (has_vector vector) ic.queue) [
  | some i ↦ (true, ic)
  | none ↦ if leb int_max_pending (length ic.queue) then (false, ic) else (
    true,
    record { queue = ic.queue ++ record { vector = vector; priority = priority } ∷ [] },
  )
]

abbrev no_request : IntRequest
no_request = record { vector = 0; priority = 0 }

unfoldable pub int_cancel : IntController → ℕ → IntController
int_cancel ic vector = elim (find_index (has_vector vector) ic.queue) [
  | some i ↦ record { queue = swap_out ic.queue i no_request }
  | none ↦ ic
]

-- `br |= 1u << priority`, over the queue from `br` on.
unfoldable pub br_from : ℕ → List IntRequest → ℕ
br_from br [] = br
br_from br (r ∷ rs) =
    br_from (if leb 4 r.priority && leb r.priority 7 then bit_or br (2 ^ r.priority) else br) rs

unfoldable pub int_br_lines : IntController → ℕ
int_br_lines ic = br_from 0 ic.queue

-- The address wiring of E29. Bits 7, 6 and 5 of the address are not in the order of the BRs.
pub e29_addr : ℕ → ℕ → ℕ → ℕ → ℕ → ℕ → ℕ
e29_addr priority halt br7 br6 br5 br4 = bit_or (bit 2 priority) (
    bit_or (bit 1 priority * 2 ^ 1) (
      bit_or (halt % 2 * 2 ^ 2) (
        bit_or (br6 % 2 * 2 ^ 3) (
          bit_or (br4 % 2 * 2 ^ 4)
            (bit_or (br7 % 2 * 2 ^ 5) (bit_or (br5 % 2 * 2 ^ 6) (priority % 2 * 2 ^ 7)))))))

-- BG7, BG6, BG5 and BG4 of E29's data, as the level granted, 0 for none.
pub grant_of : ℕ → ℕ
grant_of d =
    if truthy (bit 1 d)
    then 7
    else if truthy (bit 0 d)
    then 6
    else if truthy (bit 3 d)
    then 5
    else if truthy (bit 2 d)
    then 4
    else 0

-- What the arbiter grants to the BR lines, given the processor's priority.
unfoldable pub arbitrate : ℕ → ℕ → ℕ
unfolding e29_addr grant_of e29_rom
arbitrate cpu_priority br =
    grant_of
      (get_or e29_rom (e29_addr cpu_priority 0 (bit 7 br) (bit 6 br) (bit 5 br) (bit 4 br)) 0)

-- `none` stands for the return value -1.
unfoldable pub int_pending : IntController → ℕ → Option ℕ
int_pending ic cpu_priority =
    let grant = arbitrate cpu_priority (br_from 0 ic.queue) in
    if truthy grant then find_index (has_priority grant) ic.queue else none

-- With nothing pending the source reads queue[-1]: `none` stands for that.
unfoldable pub int_ack : IntController → ℕ → Option (IntRequest × IntController)
int_ack ic cpu_priority = elim (int_pending ic cpu_priority) [
  | none ↦ none
  | some idx ↦ elim (get_elem? ic.queue idx) [
    | none ↦ none
    | some req ↦ some (req, record { queue = swap_out ic.queue idx no_request })
  ]
]
