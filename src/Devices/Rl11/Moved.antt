-- ===== src/Devices/Rl11/Moved.antt =====
-- What a transfer of the RL11 that nothing stops leaves (`rl11_go` of pdp11/rl11/rl11.c): an address
-- moved on by two for each word, and no error.
use ll.Prelude.{
  ℕ, suc, ◌+◌, ◌*◌, ◌%◌, ◌^◌, ◌≡◌, refl, sym, arith, Bool, true, false, Option, List, [], ◌∷◌, ◌==◌,
  length, Bool-cases, Option-cases, inl, inr,
}
use ll.Devices.Rk11.Transfer.{Memory, Transfer, stepped}
use ll.Devices.Rl11.Transfer.{store_words, compare_words, use_words}
use ll.Devices.Rl11.Reading.{compare_words-missing, compare_words-answered}

-- An address that was moved on by that many words, with the errors as they were.
pub Moved : {M : Type 0} → ℕ → Transfer M → Transfer M → Type 0
Moved n t t' = (t'.ma ≡ t.ma + n * 2) × (t'.errors ≡ t.errors)

module _ {M : Type 0} (memory : Memory M) where
  next-Moved :
      (n : ℕ) (t t' : Transfer M) (m : M) → Moved n (stepped memory m t) t' → Moved (suc n) t t'
  unfolding Moved
  next-Moved n t t' m (ma, errors) = (omega (arith, ma), errors)

  store_words-Moved :
      (ws : List ℕ) (t : Transfer M)
      → (store_words memory ws t).aborted ≡ false
      → Moved (length ws) t (store_words memory ws t)
  unfolding store_words Moved
  store_words-Moved [] t h = (omega arith, refl)
  store_words-Moved (w ∷ ws) t h =
      let r : Bool × M = memory.dato (t.ma % 2 ^ 18) w t.mem in
      elim (Bool-cases r.0) [
        | inl e ↦ rw e (
            next-Moved (length ws) t (store_words memory ws (stepped memory r.1 t)) r.1
              (store_words-Moved ws (stepped memory r.1 t) (rw e at h)))
        | inr e ↦ absurd (ground (arith, rw e at h))
      ]

  compare_words-Moved :
      (ws : List ℕ) (t : Transfer M)
      → (compare_words memory ws t).aborted ≡ false
      → Moved (length ws) t (compare_words memory ws t)
  unfolding compare_words Moved
  compare_words-Moved [] t h = (omega arith, refl)
  compare_words-Moved (w ∷ ws) t h =
      let r : Option ℕ × M = memory.dati (t.ma % 2 ^ 18) t.mem in
      elim (Option-cases r.0) [
        | inl e ↦ absurd (ground (arith, rw (compare_words-missing memory w ws t e) at h))
        | inr (word, e) ↦
            rw (compare_words-answered memory w word ws t e) (elim (Bool-cases (w == word)) [
              | inl same ↦ rw same (
                  next-Moved (length ws) t (compare_words memory ws (stepped memory r.1 t)) r.1 (
                    compare_words-Moved ws (stepped memory r.1 t)
                      (rw (compare_words-answered memory w word ws t e, same) at h)))
              | inr other ↦
                  absurd
                    (ground (arith, rw (compare_words-answered memory w word ws t e, other) at h))
            ])
      ]

  -- A transfer is what it moved.
  rebuilt :
      (n : ℕ) (t t' : Transfer M)
      → t'.aborted ≡ false
      → Moved n t t'
      → t' ≡ record { ma = t.ma + n * 2; errors = t.errors; aborted = false; mem = t'.mem }
  unfolding Moved
  rebuilt n t t' a (ma, errors) = rw (sym ma, sym errors, sym a) refl

  -- What a buffer does that nothing stops: only memory, and the address, are new.
  pub use_words-moved :
      (wchk : Bool) (ws : List ℕ) (t : Transfer M)
      → let t' = use_words memory wchk ws t in
        t'.aborted ≡ false
        → t'
          ≡ record { ma = t.ma + length ws * 2; errors = t.errors; aborted = false; mem = t'.mem }
  unfolding use_words
  use_words-moved true ws t h = rebuilt (length ws) t _ h (compare_words-Moved ws t h)
  use_words-moved false ws t h = rebuilt (length ws) t _ h (store_words-Moved ws t h)
