-- ===== src/Devices/Rl11/Summary.antt =====
-- The errors in RLCS of the RL11 and the bit that sums them up, while words are transferred
-- (pdp11/rl11/rl11.c).
use ll.Prelude.{
  ℕ, ◌*◌, ◌/◌, ◌%◌, ◌^◌, ◌≡◌, refl, arith, Bool, true, false, List, ◌==◌, bit_and, bit_or, masks,
  or-and, truthy, zero, suc, [], ◌∷◌, ◌≤◌, ◌<◌, ◌||◌, zero-bit_or, or_digit, bit_or_comm, Option,
}
use ll.Devices.Rk11.Transfer.{Memory, Transfer, stepped}
use ll.Devices.Rl11.{Rl11, rl11_set_err, error_bits, rlcs_crdy, rlcs_nxm, rlcs_crc}
use ll.Devices.Rl11.Branch.{branch, branch_option}
use ll.Devices.Rl11.Transfer.{failed, store_words, compare_words, fetch_words, use_words}

-- ERR of RLCS is up exactly when one of the five error bits below it is.
unfoldable pub Summary : ℕ → Type 0
Summary cs = truthy (bit_and cs 0x8000) ≡ truthy (bit_and cs 0x7c00)

below-bit_or : (n a b : ℕ) → a ≤ n → b ≤ bit_or a b
below-bit_or n zero b h = omega (arith, zero-bit_or b)
below-bit_or zero (suc a) b h = absurd (omega arith)
below-bit_or (suc n) (suc a) b h =
    omega (arith, or_digit (suc a) b, below-bit_or n (suc a / 2) (b / 2) (omega arith))

truthy-bit_or : (a b : ℕ) → truthy (bit_or a b) ≡ truthy a || truthy b
truthy-bit_or a b =
    ground
      (arith, below-bit_or a a b (omega arith), below-bit_or b b a (omega arith), bit_or_comm a b)

pub bit_or-Summary : (a b : ℕ) → Summary a → Summary b → Summary (bit_or a b)
unfolding Summary
bit_or-Summary a b ha hb = simp (masks, truthy-bit_or, ha, hb)

-- The bits that a command leaves alone, and the extension of the address.
pub mex-Summary : (q : ℕ) → q < 4 → Summary (q * 2 ^ 4)
unfolding Summary
mex-Summary zero h = refl
mex-Summary (suc zero) h = refl
mex-Summary (suc (suc zero)) h = refl
mex-Summary (suc (suc (suc zero))) h = refl
mex-Summary (suc (suc (suc (suc q)))) h = absurd (omega arith)

pub kept-Summary : (cs : ℕ) → Summary cs → Summary (bit_and cs 0xffcf)
unfolding Summary
kept-Summary cs h = simp (masks, h)

pub cleared-Summary : (cs : ℕ) → Summary (bit_and cs 0x037f)
unfolding Summary
cleared-Summary cs = simp masks

or_true : (b : Bool) → b || true ≡ true
or_true true = refl
or_true false = refl

pub ready_again : (cs : ℕ) → truthy (bit_and (bit_or cs rlcs_crdy) rlcs_crdy) ≡ true
ready_again cs =
    rw (or-and cs rlcs_crdy rlcs_crdy, truthy-bit_or (bit_and cs rlcs_crdy) rlcs_crdy)
      (or_true (truthy (bit_and cs rlcs_crdy)))

pub set_err-Summary :
    (bits : ℕ) (rl : Rl11)
    → Summary rl.rlcs
    → Summary (error_bits bits)
    → Summary (rl11_set_err bits rl).rlcs
unfolding rl11_set_err
set_err-Summary bits rl h hb = bit_or-Summary rl.rlcs (error_bits bits) h hb

module _ {M : Type 0} (memory : Memory M) where
  pub failed-Summary :
      (bits : ℕ) (m : M) (t : Transfer M)
      → Summary t.errors
      → Summary (error_bits bits)
      → Summary (failed memory bits m t).errors
  failed-Summary bits m t h hb = bit_or-Summary t.errors (error_bits bits) h hb

  pub store_words-Summary :
      (ws : List ℕ) (t : Transfer M) → Summary t.errors → Summary (store_words memory ws t).errors
  unfolding store_words Summary
  store_words-Summary [] t h = h
  store_words-Summary (w ∷ ws) t h =
      let r : Bool × M = memory.dato (t.ma % 2 ^ 18) w t.mem in
      branch (λ (t : Transfer M). Summary t.errors) r.0 _ _
        (λ _. store_words-Summary ws (stepped memory r.1 t) h)
        (λ _. failed-Summary rlcs_nxm r.1 t h refl)

  pub compare_words-Summary :
      (ws : List ℕ) (t : Transfer M) → Summary t.errors → Summary (compare_words memory ws t).errors
  unfolding compare_words Summary
  compare_words-Summary [] t h = h
  compare_words-Summary (w ∷ ws) t h =
      let P : Transfer M → Type 0 = λ t. Summary t.errors in
      let r : Option ℕ × M = memory.dati (t.ma % 2 ^ 18) t.mem in
      branch_option P r.0 _ _ (failed-Summary rlcs_nxm r.1 t h refl) (λ word.
        branch P (w == word) _ _ (λ _. compare_words-Summary ws (stepped memory r.1 t) h)
          (λ _. failed-Summary rlcs_crc r.1 t h refl))

  pub fetch_words-Summary :
      (n : ℕ) (t : Transfer M) → Summary t.errors → Summary (fetch_words memory n t).1.errors
  unfolding fetch_words Summary
  fetch_words-Summary zero t h = h
  fetch_words-Summary (suc n) t h =
      let r : Option ℕ × M = memory.dati (t.ma % 2 ^ 18) t.mem in
      branch_option (λ (f : List ℕ × Transfer M). Summary f.1.errors) r.0 _ _
        (failed-Summary rlcs_nxm r.1 t h refl) (λ w. fetch_words-Summary n (stepped memory r.1 t) h)

  pub use_words-Summary :
      (wchk : Bool) (ws : List ℕ) (t : Transfer M)
      → Summary t.errors
      → Summary (use_words memory wchk ws t).errors
  unfolding use_words
  use_words-Summary true ws t h = compare_words-Summary ws t h
  use_words-Summary false ws t h = store_words-Summary ws t h
