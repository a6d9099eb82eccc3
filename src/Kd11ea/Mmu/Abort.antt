-- ===== src/Kd11ea/Mmu/Abort.antt =====
-- E83 against the protection rule that it stands for, and what an abort leaves in SR0.
use ll.Prelude.{
  ℕ, zero, suc, ◌+◌, ◌*◌, ◌/◌, ◌%◌, ◌^◌, ◌<◌, ◌≡◌, refl, sym, ap, ◌∙◌, bit_and, bit_and-shifted,
  bit_and-ones, bit_and-bit, Bool, true, false, ◌&&◌, ◌||◌, not, arith, leb, ◌==◌, ==_iff,
  if◌then◌else◌, truthy, as_bit, bit, all_below, all_below_sound,
}
use ll.Kd11ea.Mmu.{abort_flags, length_compare, block_of, sr0_abort_nr, sr0_abort_pl, sr0_abort_ro}

-- The three errors, by the access field, the direction and the length comparison.
abbrev pub protection : Bool → Bool → Bool → ℕ → Bool → Bool → ℕ
protection c1 c0 illegal acf compare down =
    (if illegal || not (truthy (acf % 2)) then sr0_abort_nr else 0)
    + (if (if down then not compare else compare) then sr0_abort_pl else 0)
    + (if acf == 1 && (c1 || c0) then sr0_abort_ro else 0)

abbrev agrees : ℕ → Bool
agrees x =
    abort_flags (bit 6 x) (bit 5 x) (bit 4 x) (x / 2 ^ 2 % 4) (bit 1 x) (bit 0 x)
    == protection (truthy (bit 6 x)) (truthy (bit 5 x)) (truthy (bit 4 x)) (x / 2 ^ 2 % 4)
        (truthy (bit 1 x)) (truthy (bit 0 x))

table : all_below 128 agrees ≡ true
unfolding abort_flags
table = refl

as_bit-lt : (b : Bool) → (as_bit b < 2) × (truthy (as_bit b) ≡ b)
as_bit-lt true = (omega arith, refl)
as_bit-lt false = (omega arith, refl)

-- The PROM holds the rule.
abort_flags-eq :
    (c1 c0 illegal compare down : Bool) (acf : ℕ)
    → acf < 4
    → abort_flags (as_bit c1) (as_bit c0) (as_bit illegal) acf (as_bit compare) (as_bit down)
      ≡ protection c1 c0 illegal acf compare down
abort_flags-eq c1 c0 illegal compare down acf h =
    let x : ℕ =
      as_bit c1 * 64
      + as_bit c0 * 32
      + as_bit illegal * 16
      + acf * 4
      + as_bit compare * 2
      + as_bit down in
    let (b1, t1) = as_bit-lt c1 in
    let (b2, t2) = as_bit-lt c0 in
    let (b3, t3) = as_bit-lt illegal in
    let (b4, t4) = as_bit-lt compare in
    let (b5, t5) = as_bit-lt down in
    let e6 : bit 6 x ≡ as_bit c1 = omega arith in
    let e5 : bit 5 x ≡ as_bit c0 = omega arith in
    let e4 : bit 4 x ≡ as_bit illegal = omega arith in
    let e2 : x / 2 ^ 2 % 4 ≡ acf = omega arith in
    let e1 : bit 1 x ≡ as_bit compare = omega arith in
    let e0 : bit 0 x ≡ as_bit down = omega arith in
    rw (e6, e5, e4, e2, e1, e0, t1, t2, t3, t4, t5) at
      ((==_iff _ _).0 (all_below_sound 128 agrees x table (omega arith)))

-- The block lies in the part of the page that its length field gives, counted up or down.
abbrev pub in_page : ℕ → ℕ → Bool
in_page pdr vba =
    if truthy (bit 3 pdr)
    then leb (pdr / 2 ^ 8 % 2 ^ 7) (block_of vba)
    else leb (block_of vba) (pdr / 2 ^ 8 % 2 ^ 7)

-- Access field 3 allows every transfer, 1 a DATI alone, in the kernel's and the user's mode.
abbrev pub allowed : ℕ → ℕ → ℕ → ℕ → Bool
allowed pdr vba mode type =
    bit 1 mode == bit 0 mode
    && in_page pdr vba
    && (pdr / 2 % 4 == 3 || pdr / 2 % 4 == 1 && type % 4 == 0)

-- The flags of a transfer through a page.
abbrev pub faults : ℕ → ℕ → ℕ → ℕ → ℕ
faults pdr vba mode type =
    protection (truthy (bit 1 type)) (truthy (bit 0 type)) (not (bit 1 mode == bit 0 mode))
      (pdr / 2 % 4) (length_compare pdr vba) (truthy (bit 3 pdr))

as_bit-truthy : (x : ℕ) → x < 2 → as_bit (truthy x) ≡ x
as_bit-truthy zero h = refl
as_bit-truthy (suc zero) h = refl
as_bit-truthy (suc (suc x)) h = absurd (omega arith)

down_line : (pdr : ℕ) → truthy (bit_and pdr 8) ≡ truthy (bit 3 pdr)
down_line pdr = ground (arith, bit_and-bit 3 pdr)

illegal_line :
    (mode : ℕ)
    → (if bit 1 mode == bit 0 mode then 0 else 1) ≡ as_bit (not (bit 1 mode == bit 0 mode))
illegal_line mode = ground arith

flags_cong :
    (c1 c1' c0 c0' i i' d d' acf compare : ℕ)
    → c1 ≡ c1'
    → c0 ≡ c0'
    → i ≡ i'
    → d ≡ d'
    → abort_flags c1 c0 i acf compare d ≡ abort_flags c1' c0' i' acf compare d'
flags_cong c1 c1' c0 c0' i i' d d' acf compare p q r t = cc

pub abort_flags-faults :
    (pdr vba mode type : ℕ)
    → abort_flags
        (bit 1 type)
        (bit 0 type)
        (if bit 1 mode == bit 0 mode then 0 else 1)
        (pdr / 2 % 4)
        (as_bit (length_compare pdr vba))
        (as_bit (truthy (bit_and pdr 8)))
      ≡ faults pdr vba mode type
abort_flags-faults pdr vba mode type =
    flags_cong _ _ _ _ _ _ _ _ (pdr / 2 % 4) (as_bit (length_compare pdr vba))
      (sym (as_bit-truthy (bit 1 type) (omega arith)))
      (sym (as_bit-truthy (bit 0 type) (omega arith))) (illegal_line mode)
      (ap as_bit (down_line pdr))
    ∙ abort_flags-eq (truthy (bit 1 type)) (truthy (bit 0 type)) (not (bit 1 mode == bit 0 mode))
        (length_compare pdr vba) (truthy (bit 3 pdr)) (pdr / 2 % 4) (omega arith)

length_field : (pdr : ℕ) → bit_and pdr 0x7f00 / 2 ^ 8 ≡ pdr / 2 ^ 8 % 2 ^ 7
length_field pdr = omega (arith, bit_and-shifted 8 pdr 127, bit_and-ones 7 (pdr / 2 ^ 8))

-- The comparison as the two directions read it.
compare_line :
    (pdr vba : ℕ)
    → (if truthy (bit 3 pdr) then not (length_compare pdr vba) else length_compare pdr vba)
      ≡ not (in_page pdr vba)
compare_line pdr vba = rw (length_field pdr, down_line pdr) (ground arith)

dati_line : (type : ℕ) → (truthy (bit 1 type) || truthy (bit 0 type)) ≡ not (type % 4 == 0)
dati_line type = ground arith

protection-none :
    (write illegal outside : Bool) (acf : ℕ)
    → acf < 4
    → not (
        truthy (
          (if illegal || not (truthy (acf % 2)) then sr0_abort_nr else 0)
          + (if outside then sr0_abort_pl else 0)
          + (if acf == 1 && write then sr0_abort_ro else 0)))
      ≡ not illegal && not outside && (acf == 3 || acf == 1 && not write)
protection-none write illegal outside acf h = ground arith

not-not : (b : Bool) → not (not b) ≡ b
not-not true = refl
not-not false = refl

pub faults-allowed :
    (pdr vba mode type : ℕ) → not (truthy (faults pdr vba mode type)) ≡ allowed pdr vba mode type
faults-allowed pdr vba mode type =
    rw (compare_line pdr vba, dati_line type)
      (protection-none (not (type % 4 == 0)) (not (bit 1 mode == bit 0 mode))
          (not (in_page pdr vba)) (pdr / 2 % 4) (omega arith)
        ∙ rw
            (not-not (bit 1 mode == bit 0 mode), not-not (in_page pdr vba), not-not (type % 4 == 0))
            refl)
