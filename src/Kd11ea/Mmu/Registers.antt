-- ===== src/Kd11ea/Mmu/Registers.antt =====
-- The registers of memory management on the bus: what the decode PROMs select, read and load.
use ll.Prelude.{
  ℕ, ◌+◌, ◌*◌, ◌%◌, ◌^◌, ◌<◌, ◌≡◌, refl, ap, ◌∙◌, inl, inr, bit_and, bit_or, and-and, Bool, true,
  false, ◌&&◌, not, arith, ltb, ◌==◌, ==_iff, if◌then◌else◌, as_bit, bit, all_below,
  all_below_sound, and_true, Bool-cases,
}
use ll.Unibus.{same_level}
use ll.Kd11ea.Mmu.{Mmu, mmu_read, mmu_write, mmu_kt_write, lanes, put, read_e76_e77, apr_index}

-- The address of a PAR (772340, 777640) or of a PDR (772300, 777600): kernel 0-7, user 8-15.
abbrev pub apr_addr : Bool → ℕ → ℕ
apr_addr is_par i =
    (if ltb i 8 then 0x3f4c0 else 0x3ff80) + (if is_par then 0x20 else 0) + i % 8 * 2

-- A write that loads none of the registers, by the strobes, changes nothing.
pub mmu_kt_write-mmu_write :
    (mmu : Mmu) (pba word : ℕ) (is_byte : Bool)
    → mmu_kt_write pba (as_bit is_byte) ≡ false
    → mmu_write mmu pba word is_byte ≡ mmu
unfolding mmu_kt_write mmu_write
mmu_kt_write-mmu_write mmu pba word is_byte h = ground arith

-- E76 and the register number at an address: selected, PAR, number.
abbrev read_decoded : Bool → ℕ → Bool
read_decoded is_par i =
    let d = read_e76_e77 (apr_addr is_par i % 2 ^ 18) 0 0 true in
    bit 2 d == 0 && bit 0 d == as_bit is_par && apr_index (apr_addr is_par i % 2 ^ 18) == i

read_table : (is_par : Bool) → all_below 16 (read_decoded is_par) ≡ true
unfolding read_e76_e77
read_table true = refl
read_table false = refl

-- The strobes of E77 in the order PDR LOW, PDR HIGH, PAR LOW, PAR HIGH, and the number.
abbrev strobes : Bool → Bool → Bool → ℕ
strobes is_par low high =
    if is_par
    then 3 + (if low then 0 else 4) + (if high then 0 else 8)
    else 12 + (if low then 0 else 1) + (if high then 0 else 2)

abbrev write_decoded : Bool → ℕ → Bool
write_decoded is_par i =
    read_e76_e77 (apr_addr is_par i % 2 ^ 18) 1 0 false % 16 == strobes is_par true true
    && read_e76_e77 (apr_addr is_par i % 2 ^ 18) 1 1 false % 16 == strobes is_par true false
    && read_e76_e77 ((apr_addr is_par i + 1) % 2 ^ 18) 1 1 false % 16 == strobes is_par false true
    && apr_index ((apr_addr is_par i + 1) % 2 ^ 18) == i

write_table : (is_par : Bool) → all_below 16 (write_decoded is_par) ≡ true
unfolding read_e76_e77
write_table true = refl
write_table false = refl

read_row :
    (is_par : Bool) (i : ℕ)
    → i < 16
    → let d = read_e76_e77 (apr_addr is_par i % 2 ^ 18) 0 0 true in
      (bit 2 d ≡ 0) × (bit 0 d ≡ as_bit is_par) × (apr_index (apr_addr is_par i % 2 ^ 18) ≡ i)
read_row is_par i h =
    let (rest, c) =
      and_true _ _ (all_below_sound 16 (read_decoded is_par) i (read_table is_par) h) in
    let (a, b) = and_true _ _ rest in ((==_iff _ _).0 a, (==_iff _ _).0 b, (==_iff _ _).0 c)

write_row :
    (is_par : Bool) (i : ℕ)
    → i < 16
    → (read_e76_e77 (apr_addr is_par i % 2 ^ 18) 1 0 false % 16 ≡ strobes is_par true true)
      × (read_e76_e77 (apr_addr is_par i % 2 ^ 18) 1 1 false % 16 ≡ strobes is_par true false)
      × (read_e76_e77 ((apr_addr is_par i + 1) % 2 ^ 18) 1 1 false % 16 ≡ strobes is_par false true)
      × (apr_index ((apr_addr is_par i + 1) % 2 ^ 18) ≡ i)
write_row is_par i h =
    let (rest', d) =
      and_true _ _ (all_below_sound 16 (write_decoded is_par) i (write_table is_par) h) in
    let (rest, c) = and_true _ _ rest' in
    let (a, b) = and_true _ _ rest in
    ((==_iff _ _).0 a, (==_iff _ _).0 b, (==_iff _ _).0 c, (==_iff _ _).0 d)

-- Reading a register's address reads the register.
mmu_read-apr_addr :
    (mmu : Mmu) (is_par : Bool) (i : ℕ)
    → i < 16
    → mmu_read mmu (apr_addr is_par i) ≡ (if is_par then mmu.par i else mmu.pdr i)
unfolding mmu_read
mmu_read-apr_addr mmu true i h =
    let (selected, area, number) = read_row true i h in rw (selected, area, number) refl
mmu_read-apr_addr mmu false i h =
    let (selected, area, number) = read_row false i h in rw (selected, area, number) refl

-- What a write leaves in a register: the lanes loaded, and the bits that exist.
abbrev pub loaded : Bool → ℕ → ℕ → Bool → Bool → ℕ
loaded is_par old word low high =
    bit_and
      (bit_or
        (bit_and old
          (if low then (if high then 0 else 0xff00) else if high then 0x00ff else 0xffff))
        (bit_and word
          (if low then (if high then 0xffff else 0x00ff) else if high then 0xff00 else 0)))
      (if is_par then 0x0fff else 0x7f0e)

abbrev after_write : Bool → Mmu → ℕ → ℕ → Bool → Bool → Mmu
after_write true mmu i word low high = record mmu {
  par = put mmu.par i (loaded true (mmu.par i) word low high);
}
after_write false mmu i word low high = record mmu {
  pdr = put mmu.pdr i (loaded false (mmu.pdr i) word low high);
}

-- The strobes as single lines.
strobe_lines :
    (d s : ℕ)
    → d % 16 ≡ s
    → (bit 0 d ≡ bit 0 s) × (bit 1 d ≡ bit 1 s) × (bit 2 d ≡ bit 2 s) × (bit 3 d ≡ bit 3 s)
strobe_lines d s h = omega arith

-- The bit W of a PDR is cleared by every write.
w_cleared : (x : ℕ) → bit_and (bit_and x 0x7f4e) 0xffbf ≡ bit_and x 0x7f0e
w_cleared x = and-and x 0x7f4e 0xffbf

mmu_write-word :
    (mmu : Mmu) (is_par : Bool) (i word : ℕ)
    → i < 16
    → mmu_write mmu (apr_addr is_par i) word false ≡ after_write is_par mmu i word true true
unfolding mmu_write lanes
mmu_write-word mmu true i word h =
    let (all, _, _, _) = write_row true i h in
    let (_, _, number) = read_row true i h in
    let (_, _, b2, b3) = strobe_lines _ _ all in rw (b2, b3, number) refl
mmu_write-word mmu false i word h =
    let (all, _, _, _) = write_row false i h in
    let (_, _, number) = read_row false i h in
    let (b0, b1, b2, b3) = strobe_lines _ _ all in
    rw (b2, b3, b0, b1, number)
      (ap (λ v. record mmu { pdr = put mmu.pdr i v })
        (w_cleared (bit_or (bit_and (mmu.pdr i) 0) (bit_and word 0xffff))))

-- A byte write loads the low lane at the register's address, the high one at the next.
mmu_write-byte :
    (mmu : Mmu) (is_par high : Bool) (i word : ℕ)
    → i < 16
    → mmu_write mmu (apr_addr is_par i + as_bit high) word true
      ≡ after_write is_par mmu i word (not high) high
unfolding mmu_write lanes
mmu_write-byte mmu true true i word h =
    let (_, _, up, number) = write_row true i h in
    let (_, _, b2, b3) = strobe_lines _ _ up in rw (b2, b3, number) refl
mmu_write-byte mmu false true i word h =
    let (_, _, up, number) = write_row false i h in
    let (b0, b1, b2, b3) = strobe_lines _ _ up in
    rw (b2, b3, b0, b1, number)
      (ap (λ v. record mmu { pdr = put mmu.pdr i v })
        (w_cleared (bit_or (bit_and (mmu.pdr i) 0x00ff) (bit_and word 0xff00))))
mmu_write-byte mmu true false i word h =
    let (_, down, _, _) = write_row true i h in
    let (_, _, number) = read_row true i h in
    let even : apr_addr true i + 0 ≡ apr_addr true i = omega arith in
    let (_, _, b2, b3) = strobe_lines _ _ down in rw (even, b2, b3, number) refl
mmu_write-byte mmu false false i word h =
    let (_, down, _, _) = write_row false i h in
    let (_, _, number) = read_row false i h in
    let even : apr_addr false i + 0 ≡ apr_addr false i = omega arith in
    let (b0, b1, b2, b3) = strobe_lines _ _ down in
    rw (even, b2, b3, b0, b1, number)
      (ap (λ v. record mmu { pdr = put mmu.pdr i v })
        (w_cleared (bit_or (bit_and (mmu.pdr i) 0xff00) (bit_and word 0x00ff))))

put_own : (f g : ℕ → ℕ) (i j : ℕ) → put f i (g (f i)) j ≡ (if i == j then g (f j) else f j)
put_own f g i j = elim (Bool-cases (i == j)) [
  | inl e ↦ rw (e, (==_iff i j).0 e) refl
  | inr e ↦ rw e refl
]

read-after_write :
    (mmu : Mmu) (is_par is_par' : Bool) (i j word : ℕ) (low high : Bool)
    → j < 16
    → mmu_read (after_write is_par mmu i word low high) (apr_addr is_par' j) ≡ (
        if same_level is_par is_par' && i == j
        then loaded is_par (mmu_read mmu (apr_addr is_par' j)) word low high
        else mmu_read mmu (apr_addr is_par' j))
read-after_write mmu true true i j word low high h =
    rw
      (
        mmu_read-apr_addr (after_write true mmu i word low high) true j h,
        mmu_read-apr_addr mmu true j h,
      )
      (put_own mmu.par (λ v. loaded true v word low high) i j)
read-after_write mmu false false i j word low high h =
    rw
      (
        mmu_read-apr_addr (after_write false mmu i word low high) false j h,
        mmu_read-apr_addr mmu false j h,
      )
      (put_own mmu.pdr (λ v. loaded false v word low high) i j)
read-after_write mmu true false i j word low high h =
    rw
      (
        mmu_read-apr_addr (after_write true mmu i word low high) false j h,
        mmu_read-apr_addr mmu false j h,
      )
      refl
read-after_write mmu false true i j word low high h =
    rw
      (
        mmu_read-apr_addr (after_write false mmu i word low high) true j h,
        mmu_read-apr_addr mmu true j h,
      )
      refl

-- A word or a byte that is written to a PAR or PDR is what the register reads, in the bits that
-- exist and with W cleared, and every other PAR and PDR reads as before.
pub mmu_read-mmu_write :
    (mmu : Mmu) (is_par is_par' high : Bool) (i j word : ℕ)
    → i < 16
    → j < 16
    → let old = mmu_read mmu (apr_addr is_par' j) in
      let hit = same_level is_par is_par' && i == j in
      (mmu_read (mmu_write mmu (apr_addr is_par i) word false) (apr_addr is_par' j)
        ≡ (if hit then loaded is_par old word true true else old))
      × (mmu_read (mmu_write mmu (apr_addr is_par i + as_bit high) word true) (apr_addr is_par' j)
          ≡ (if hit then loaded is_par old word (not high) high else old))
mmu_read-mmu_write mmu is_par is_par' high i j word h k = (
  ap (λ m. mmu_read m (apr_addr is_par' j)) (mmu_write-word mmu is_par i word h)
      ∙ read-after_write mmu is_par is_par' i j word true true k,
  ap (λ m. mmu_read m (apr_addr is_par' j)) (mmu_write-byte mmu is_par high i word h)
      ∙ read-after_write mmu is_par is_par' i j word (not high) high k,
)
