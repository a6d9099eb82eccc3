-- ===== src/Devices/Rk11/Writing.antt =====
-- The data of a write of the RK11 (`rk05_go` of pdp11/rk11/rk11.c): the buffers of a sector each
-- against one pass over memory.
use ll.Prelude.{
  ℕ, zero, suc, ◌+◌, ◌-◌, ◌*◌, ◌%◌, ◌/◌, ◌^◌, ◌≤◌, ◌≡◌, ◌≢◌, refl, sym, ◌∙◌, ap, arith, true, false,
  Option, none, some, List, [], ◌∷◌, ◌++◌, ◌==◌, ==_iff, if_true, if_false, length, Bool-cases,
  Option-cases, inl, inr,
}
use ll.Devices.Rk11.Overwrite.{zero_add, suc_add, overwrite-overwrite}
use ll.Devices.Rk11.Transfer.{
  Memory, Transfer, chunk, missing, stepped, fetch_words, write_loop, overwrite, bytes_of,
}

bytes_of-append : (xs ys : List ℕ) → bytes_of (xs ++ ys) ≡ bytes_of xs ++ bytes_of ys
bytes_of-append [] ys = refl
bytes_of-append (x ∷ xs) ys = ap (λ l. x % 2 ^ 8 ∷ x / 2 ^ 8 % 2 ^ 8 ∷ l) (bytes_of-append xs ys)

length-bytes_of : (xs : List ℕ) → length (bytes_of xs) ≡ length xs * 2
length-bytes_of [] = refl
length-bytes_of (x ∷ xs) = omega (arith, length-bytes_of xs)

not_zero : (k : ℕ) → (k == 0) ≡ false → k ≢ 0
not_zero k e = ground (arith, e)

chunk-parts : (left : ℕ) → left ≡ chunk left + (left - chunk left)
chunk-parts left = ground arith

chunk-fits : (left fuel : ℕ) → left ≢ 0 → left ≤ suc fuel → left - chunk left ≤ fuel
chunk-fits left fuel h le = ground arith

chunk-last : (left : ℕ) → left - chunk left ≡ 0 → chunk left ≡ left
chunk-last left h = ground arith

-- The file with the words at their place, and the transfer after them.
abbrev pub written : {M : Type 0} → ℕ → List ℕ → List ℕ × Transfer M → List ℕ × Transfer M
written pos file r = (overwrite pos (bytes_of r.0) file, r.1)

module _ {M : Type 0} (memory : Memory M) where
  fetch-missing :
      (n : ℕ) (t : Transfer M)
      → let r = memory.dati (t.ma % 2 ^ 18) t.mem in
        r.0 ≡ none → fetch_words memory (suc n) t ≡ ([], missing memory r.1 t)
  unfolding fetch_words
  fetch-missing n t e = rw (fetch_words, e) refl

  fetch-answered :
      (n w : ℕ) (t : Transfer M)
      → let r = memory.dati (t.ma % 2 ^ 18) t.mem in
        let rest = fetch_words memory n (stepped memory r.1 t) in
        r.0 ≡ some w → fetch_words memory (suc n) t ≡ (w ∷ rest.0, rest.1)
  unfolding fetch_words
  fetch-answered n w t e = rw (fetch_words, e) refl

  length-fetch_words :
      (n : ℕ) (t : Transfer M)
      → (fetch_words memory n t).1.aborted ≡ false
      → length (fetch_words memory n t).0 ≡ n
  unfolding fetch_words
  length-fetch_words zero t h = refl
  length-fetch_words (suc n) t h =
      let r : Option ℕ × M = memory.dati (t.ma % 2 ^ 18) t.mem in
      elim (Option-cases r.0) [
        | inl e ↦ absurd (ground (arith, rw (fetch-missing n t e) at h))
        | inr (w, e) ↦ rw (fetch-answered n w t e) (
            ap suc (length-fetch_words n (stepped memory r.1 t) (rw (fetch-answered n w t e) at h)))
      ]

  -- Memory that answers the first words and then the others.
  fetch-append :
      (n k : ℕ) (t : Transfer M)
      → let r = fetch_words memory n t in
        let rest = fetch_words memory k r.1 in
        r.1.aborted ≡ false → fetch_words memory (n + k) t ≡ (r.0 ++ rest.0, rest.1)
  unfolding fetch_words
  fetch-append zero k t h = rw (zero_add k) refl
  fetch-append (suc n) k t h =
      let r : Option ℕ × M = memory.dati (t.ma % 2 ^ 18) t.mem in
      elim (Option-cases r.0) [
        | inl e ↦ absurd (ground (arith, rw (fetch-missing n t e) at h))
        | inr (w, e) ↦
            rw (suc_add n k, fetch-answered n w t e, fetch-answered (n + k) w t e)
              (ap (λ (r : List ℕ × Transfer M). (w ∷ r.0, r.1))
                (fetch-append n k (stepped memory r.1 t) (rw (fetch-answered n w t e) at h)))
      ]

  -- What stops the first words stops the whole.
  fetch-stopped :
      (n k : ℕ) (t : Transfer M)
      → t.aborted ≡ false
      → (fetch_words memory n t).1.aborted ≡ true
      → (fetch_words memory (n + k) t).1.aborted ≡ true
  unfolding fetch_words
  fetch-stopped zero k t a h = absurd (ground (arith, a, h))
  fetch-stopped (suc n) k t a h =
      let r : Option ℕ × M = memory.dati (t.ma % 2 ^ 18) t.mem in
      elim (Option-cases r.0) [
        | inl e ↦ rw (suc_add n k, fetch-missing (n + k) t e) refl
        | inr (w, e) ↦
            rw (suc_add n k, fetch-answered (n + k) w t e)
              (fetch-stopped n k (stepped memory r.1 t) a (rw (fetch-answered n w t e) at h))
      ]

  write_loop-none :
      (fuel left pos : ℕ) (file : List ℕ) (t : Transfer M)
      → left ≡ 0
      → write_loop memory fuel left pos file t ≡ (file, t)
  unfolding write_loop
  write_loop-none zero left pos file t e = refl
  write_loop-none (suc fuel) left pos file t e = if_true (left == 0) _ _ (ground (arith, e))

  -- Two buffers in a row.
  joined :
      (n k pos : ℕ) (file : List ℕ) (t : Transfer M)
      → let r = fetch_words memory n t in
        let rest = fetch_words memory k r.1 in
        let whole = fetch_words memory (n + k) t in
        r.1.aborted ≡ false
        → written (pos + n * 2) (overwrite pos (bytes_of r.0) file) rest ≡ written pos file whole
  joined n k pos file t h =
      let r : List ℕ × Transfer M = fetch_words memory n t in
      let rest : List ℕ × Transfer M = fetch_words memory k r.1 in
      let size : n * 2 ≡ length (bytes_of r.0) =
        omega (arith, length-bytes_of r.0, length-fetch_words n t h) in
      rw (fetch-append n k t h, bytes_of-append r.0 rest.0, size)
        (ap (λ f. (f, rest.1)) (overwrite-overwrite pos (bytes_of r.0) (bytes_of rest.0) file))

  -- The loop of a write over buffers of a sector, from any point of it and with at least as much
  -- fuel as words are left, where memory answers all the words: the file is that of one write of
  -- all the words at their place, and the rest is as one pass over memory leaves it.
  pub write_loop-once :
      (fuel left pos : ℕ) (file : List ℕ) (t : Transfer M)
      → left ≢ 0
      → left ≤ fuel
      → t.aborted ≡ false
      → let whole = fetch_words memory left t in
        whole.1.aborted ≡ false → write_loop memory fuel left pos file t ≡ written pos file whole
  unfolding write_loop
  write_loop-once zero left pos file t some_left h a up = absurd (some_left (omega arith))
  write_loop-once (suc fuel) left pos file t some_left h a up =
      let n : ℕ = chunk left in
      let k : ℕ = left - n in
      let r : List ℕ × Transfer M = fetch_words memory n t in
      let parts : left ≡ n + k = chunk-parts left in
      let outcome : ℕ → List ℕ × Transfer M = λ m. written pos file (fetch_words memory m t) in
      let buffer : r.1.aborted ≡ false = elim (Bool-cases r.1.aborted) [
        | inl e ↦ absurd (ground (arith, fetch-stopped n k t a e, rw parts at up))
        | inr e ↦ e
      ] in
      if_false (left == 0) _ _ (ground (arith, some_left))
      ∙ if_false r.1.aborted _ _ buffer
      ∙ elim (Bool-cases (k == 0)) [
        | inl e ↦
            write_loop-none fuel k (pos + n * 2) (overwrite pos (bytes_of r.0) file) r.1
              ((==_iff k 0).0 e)
            ∙ ap outcome (chunk-last left ((==_iff k 0).0 e))
        | inr e ↦
            write_loop-once fuel k (pos + n * 2) (overwrite pos (bytes_of r.0) file) r.1
              (not_zero k e) (chunk-fits left fuel some_left h) buffer
              (rw (parts, fetch-append n k t buffer) at up)
            ∙ joined n k pos file t buffer
            ∙ ap outcome (sym parts)
      ]
