-- ===== src/Kd11ea/Int/Arbiter.antt =====
-- E29 against the rule that it stands for: the highest line above the processor's priority.
use ll.Prelude.{
  ℕ, ◌+◌, ◌*◌, ◌/◌, ◌%◌, ◌<◌, ◌≡◌, refl, Bool, true, ◌&&◌, arith, ltb, ◌==◌, ==_iff, if◌then◌else◌,
  truthy, bit, all_below, all_below_sound,
}
use ll.Kd11ea.Int.{arbitrate}

-- The highest of the lines 7 to 4 that is up and above `cpu`, 0 if there is none.
abbrev pub highest : ℕ → ℕ → ℕ → ℕ → ℕ → ℕ
highest cpu b7 b6 b5 b4 =
    if truthy b7 && ltb cpu 7
    then 7
    else if truthy b6 && ltb cpu 6
    then 6
    else if truthy b5 && ltb cpu 5
    then 5
    else if truthy b4 && ltb cpu 4
    then 4
    else 0

abbrev agrees : ℕ → Bool
agrees x =
    let cpu = x / 16 in
    let br = x % 16 * 16 in
    arbitrate cpu br == highest cpu (bit 7 br) (bit 6 br) (bit 5 br) (bit 4 br)

table : all_below 128 agrees ≡ true
unfolding arbitrate
table = refl

table_entry :
    (cpu n : ℕ)
    → cpu < 8
    → n < 16
    → arbitrate cpu (n * 16)
      ≡ highest cpu (bit 7 (n * 16)) (bit 6 (n * 16)) (bit 5 (n * 16)) (bit 4 (n * 16))
table_entry cpu n h k =
    let x : ℕ = cpu * 16 + n in
    let row : x / 16 ≡ cpu = omega arith in
    let column : x % 16 ≡ n = omega arith in
    rw (row, column) at ((==_iff _ _).0 (all_below_sound 128 agrees x table (omega arith)))

-- The arbiter sees the lines 7 to 4 alone.
br_lines : ℕ → ℕ
br_lines br = br / 16 % 16 * 16

bit-br_lines :
    (br : ℕ)
    → (bit 7 br ≡ bit 7 (br_lines br))
      × (bit 6 br ≡ bit 6 (br_lines br))
      × (bit 5 br ≡ bit 5 (br_lines br))
      × (bit 4 br ≡ bit 4 (br_lines br))
unfolding br_lines
bit-br_lines br = omega arith

arbitrate-br_lines : (cpu br : ℕ) → arbitrate cpu br ≡ arbitrate cpu (br_lines br)
unfolding arbitrate
arbitrate-br_lines cpu br = let (l7, l6, l5, l4) = bit-br_lines br in rw (l7, l6, l5, l4)

-- E29 grants the highest line above the processor's priority.
pub arbitrate-eq-highest :
    (cpu br : ℕ)
    → cpu < 8
    → arbitrate cpu br ≡ highest cpu (bit 7 br) (bit 6 br) (bit 5 br) (bit 4 br)
arbitrate-eq-highest cpu br h =
    let (l7, l6, l5, l4) = bit-br_lines br in
    rw (l7, l6, l5, l4, arbitrate-br_lines cpu br)
      (unfold br_lines in table_entry cpu (br / 16 % 16) h (omega arith))
