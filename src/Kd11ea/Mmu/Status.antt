-- ===== src/Kd11ea/Mmu/Status.antt =====
-- SR0 across a translation: it follows the page and the mode, and an abort freezes it.
use ll.Prelude.{
  ℕ, zero, suc, ◌+◌, ◌*◌, ◌/◌, ◌%◌, ◌^◌, ◌<◌, ◌≡◌, refl, sym, ap, ◌∙◌, inl, inr, bit_and, bit_or,
  and_digit, bit_and-shifted, bit_and-ones, bit_or-fields, bit_or-zero, zero-bit_and, masks, true,
  some, arith, not, if◌then◌else◌, truthy, Bool-cases,
}
use ll.Kd11ea.Mmu.{
  Mmu, Translation, mmu_translate, checked, follow, relocated, apr_of, page_of, frozen, sr0_place,
}
use ll.Kd11ea.Mmu.Abort.{allowed, faults, faults-allowed, abort_flags-faults}

-- The mode and the page take bits 6 to 1.
place-eq : (mode page : ℕ) → page < 8 → sr0_place mode page ≡ (mode % 4 * 16 + page) * 2
place-eq mode page h =
    omega (arith, bit_and-ones 2 mode, bit_or-fields 5 (bit_and mode 3) (page * 2) (omega arith))

even_below-masked : (q : ℕ) → q < 64 → bit_and (q * 2) 0xff81 ≡ 0
even_below-masked q h =
    let half : q * 2 / 2 ≡ q = omega arith in
    let none_left : q / 2 ^ 6 ≡ 0 = omega arith in
    let masked : bit_and q 0x7fc0 ≡ 0 =
      bit_and-shifted 6 q 511 ∙ rw (none_left, zero-bit_and 511) refl in
    omega (arith, rw half at (and_digit (q * 2) 0xff81), masked)

even_below-unflagged : (q : ℕ) → q < 64 → bit_and (q * 2) 0xe000 ≡ 0
even_below-unflagged q h =
    let none_left : q * 2 / 2 ^ 13 ≡ 0 = omega arith in
    bit_and-shifted 13 (q * 2) 7 ∙ rw (none_left, zero-bit_and 7) refl

place-masked : (mode page : ℕ) → page < 8 → bit_and (sr0_place mode page) 0xff81 ≡ 0
place-masked mode page h =
    ap (λ t. bit_and t 0xff81) (place-eq mode page h)
    ∙ even_below-masked (mode % 4 * 16 + page) (omega arith)

place-unflagged : (mode page : ℕ) → page < 8 → bit_and (sr0_place mode page) 0xe000 ≡ 0
place-unflagged mode page h =
    ap (λ t. bit_and t 0xe000) (place-eq mode page h)
    ∙ even_below-unflagged (mode % 4 * 16 + page) (omega arith)

-- SR0 with the place of a reference, and with the flags of one that aborts.
abbrev followed : ℕ → ℕ → ℕ
followed sr0 place = if frozen sr0 then sr0 else bit_or (bit_and sr0 0xff81) place

abbrev latched : ℕ → ℕ → ℕ → ℕ
latched sr0 aborts place =
    if frozen sr0 then sr0 else bit_or (bit_or (bit_and sr0 0xff81) aborts) place

module _ (place : ℕ) (masked : bit_and place 0xff81 ≡ 0)
    (unflagged : bit_and place 0xe000 ≡ 0) where
  -- Following a reference raises no flag.
  frozen-followed : (sr0 : ℕ) → frozen (bit_or (bit_and sr0 0xff81) place) ≡ frozen sr0
  frozen-followed sr0 = ap truthy (simp (masks, unflagged))

  followed-masked :
      (sr0 : ℕ) → bit_and (bit_or (bit_and sr0 0xff81) place) 0xff81 ≡ bit_and sr0 0xff81
  followed-masked sr0 = simp (masks, masked)

  latched-followed :
      (sr0 aborts : ℕ)
      → (if truthy aborts then latched (followed sr0 place) aborts place else followed sr0 place)
        ≡ latched sr0 aborts place
  latched-followed sr0 zero =
      ap (λ t. if frozen sr0 then sr0 else bit_or t place) (sym (bit_or-zero (bit_and sr0 0xff81)))
  latched-followed sr0 (suc aborts) = elim (Bool-cases (frozen sr0)) [
    | inl on ↦ rw (on, on) refl
    | inr off ↦ rw (off, frozen-followed sr0, off, followed-masked sr0) refl
  ]

sr0-checked :
    (mmu : Mmu) (vba mode pba aborts : ℕ)
    → (checked (follow mmu vba mode) vba mode pba aborts).mmu.sr0
      ≡ latched mmu.sr0 aborts (sr0_place mode (page_of vba))
sr0-checked mmu vba mode pba zero =
    latched-followed (sr0_place mode (page_of vba)) (place-masked mode (page_of vba) (omega arith))
      (place-unflagged mode (page_of vba) (omega arith)) mmu.sr0 zero
sr0-checked mmu vba mode pba (suc aborts) =
    latched-followed (sr0_place mode (page_of vba)) (place-masked mode (page_of vba) (omega arith))
      (place-unflagged mode (page_of vba) (omega arith)) mmu.sr0 (suc aborts)

ok-checked :
    (mapped : Mmu) (vba mode pba aborts : ℕ)
    → ((checked mapped vba mode pba aborts).ok ≡ not (truthy aborts))
      × ((checked mapped vba mode pba aborts).mmu.par ≡ mapped.par)
      × ((checked mapped vba mode pba aborts).mmu.pdr ≡ mapped.pdr)
      × ((checked mapped vba mode pba aborts).mmu.page ≡ mapped.page)
ok-checked mapped vba mode pba zero = (refl, refl, refl, refl)
ok-checked mapped vba mode pba (suc aborts) = (refl, refl, refl, refl)

-- What a transfer through a page has done.
pub record IsTransfer (mmu : Mmu) (vba mode type : ℕ) (t : Translation) : Type 0 where
  pub verdict : t.ok ≡ allowed (mmu.pdr (apr_of vba mode)) vba mode type
  pub status :
      t.mmu.sr0
      ≡ latched mmu.sr0
          (faults (mmu.pdr (apr_of vba mode)) vba mode type)
          (sr0_place mode (page_of vba))
  pub areas : t.mmu.par ≡ mmu.par
  pub descriptors : t.mmu.pdr ≡ mmu.pdr
  pub page : t.mmu.page ≡ some (apr_of vba mode)

-- A transfer goes through exactly when its page allows it, and SR0 keeps what it shows of an
-- earlier abort, or takes the mode, the page and the flags of this transfer.
pub mmu_translate-IsTransfer :
    (mmu : Mmu) (vba mode type : ℕ)
    → IsTransfer mmu vba mode type (mmu_translate mmu vba mode (some type) true)
unfolding mmu_translate
mmu_translate-IsTransfer mmu vba mode type =
    let pdr : ℕ = mmu.pdr (apr_of vba mode) in
    let pba : ℕ = relocated (mmu.par (apr_of vba mode)) vba in
    let mapped : Mmu = follow mmu vba mode in
    let same : _ ≡ faults pdr vba mode type = abort_flags-faults pdr vba mode type in
    let (ok, areas, descriptors, page) =
      ok-checked mapped vba mode pba (faults pdr vba mode type) in
    record {
      verdict =
          ap (λ a. (checked mapped vba mode pba a).ok) same ∙ ok ∙ faults-allowed pdr vba mode type;
      status =
          ap (λ a. (checked mapped vba mode pba a).mmu.sr0) same
          ∙ sr0-checked mmu vba mode pba (faults pdr vba mode type);
      areas = ap (λ a. (checked mapped vba mode pba a).mmu.par) same ∙ areas;
      descriptors = ap (λ a. (checked mapped vba mode pba a).mmu.pdr) same ∙ descriptors;
      page = ap (λ a. (checked mapped vba mode pba a).mmu.page) same ∙ page;
    }
