-- ===== src/Kd11ea/Mmu/Relocation.antt =====
-- Where the physical address of a virtual one comes from.
use ll.Prelude.{
  ℕ, ◌+◌, ◌*◌, ◌/◌, ◌%◌, ◌^◌, ◌<◌, ◌≡◌, refl, ap, bit_and, bit_or-fields, bit_and-shifted,
  bit_and-ones, Bool, true, false, Option, none, some, arith, leb, ◌==◌, if◌then◌else◌,
}
use ll.Kd11ea.Mmu.{Mmu, Translation, mmu_translate, relocated, page_of, block_of, apr_of}

-- The displacement and the block, in units of 64 bytes, from the start of the page's area.
relocated-eq : (par vba : ℕ) → relocated par vba ≡ (par % 2 ^ 12 * 2 ^ 6 + vba % 2 ^ 13) % 2 ^ 18
relocated-eq par vba =
    rw (bit_or-fields 6 ((par % 2 ^ 12 + block_of vba) % 2 ^ 13) (vba % 2 ^ 6) (omega arith))
      (omega arith)

-- The top three lines of the address, all up in the I/O page.
io_page : (vba : ℕ) → vba < 2 ^ 16 → (bit_and vba 0xe000 == 0xe000) ≡ leb 0xe000 vba
io_page vba h = ground (arith, bit_and-shifted 13 vba 7, bit_and-ones 3 (vba / 2 ^ 13))

either :
    (b : Bool) (t u : Translation) (x : ℕ) → t.pba ≡ x → u.pba ≡ x → (if b then t else u).pba ≡ x
either true t u x p q = p
either false t u x p q = q

-- The physical address of a virtual one, whatever the transfer and whether or not it aborts.
pub mmu_translate-pba :
    (mmu : Mmu) (vba mode : ℕ) (bus : Option ℕ) (relocate : Bool)
    → vba < 2 ^ 16
    → (mmu_translate mmu vba mode bus relocate).pba ≡ (
        if relocate
        then (mmu.par (apr_of vba mode) % 2 ^ 12 * 2 ^ 6 + vba % 2 ^ 13) % 2 ^ 18
        else if leb 0xe000 vba
        then 0x30000 + vba
        else vba)
unfolding mmu_translate
mmu_translate-pba mmu vba mode bus false h = rw (io_page vba h, bit_or-fields 16 3 vba h) refl
mmu_translate-pba mmu vba mode none true h = relocated-eq (mmu.par (apr_of vba mode)) vba
mmu_translate-pba mmu vba mode (some type) true h =
    let p = relocated-eq (mmu.par (apr_of vba mode)) vba in either _ _ _ _ p p

-- Two addresses of one page lie apart in memory.
pub mmu_translate-injective :
    (mmu : Mmu) (vba vba' mode : ℕ) (bus bus' : Option ℕ) (relocate : Bool)
    → vba < 2 ^ 16
    → vba' < 2 ^ 16
    → page_of vba ≡ page_of vba'
    → (mmu_translate mmu vba mode bus relocate).pba
      ≡ (mmu_translate mmu vba' mode bus' relocate).pba
    → vba ≡ vba'
mmu_translate-injective mmu vba vba' mode bus bus' false h h' same e = ground (
  arith,
  mmu_translate-pba mmu vba mode bus false h,
  mmu_translate-pba mmu vba' mode bus' false h',
)
mmu_translate-injective mmu vba vba' mode bus bus' true h h' same e =
    let area : mmu.par (apr_of vba mode) ≡ mmu.par (apr_of vba' mode) =
      ap (λ p. mmu.par ((if mode == 3 then 8 else 0) + p)) same in
    omega (
      arith,
      area,
      mmu_translate-pba mmu vba mode bus true h,
      mmu_translate-pba mmu vba' mode bus' true h',
    )
