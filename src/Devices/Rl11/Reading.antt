-- ===== src/Devices/Rl11/Reading.antt =====
-- The read and the write check of the RL11 (`rl11_go` of pdp11/rl11/rl11.c): the buffers of a
-- sector each against one pass over the words of the file.
use ll.Prelude.{
  ℕ, zero, suc, ◌+◌, ◌-◌, ◌*◌, ◌%◌, ◌^◌, ◌≤◌, ◌≡◌, refl, sym, ap, ap₂, ==_iff, ◌∙◌, arith, Bool,
  true, false, Option, none, some, List, [], ◌∷◌, ◌++◌, ◌==◌, if◌then◌else◌, length, drop, if_false,
  if_true, Bool-cases, Option-cases, inl, inr,
}
use ll.Devices.Rk11.Transfer.{Memory, Transfer, words, stepped}
use ll.Devices.Rk11.Reading.{words-split}
use ll.Devices.Rk11.CheckCommand.{words-full, length-drop}
use ll.Devices.Rl11.{rlcs_nxm, rlcs_crc}
use ll.Devices.Rl11.Transfer.{chunk, failed, store_words, compare_words, use_words, read_loop}

module _ {M : Type 0} (memory : Memory M) where
  store_words-append :
      (xs ys : List ℕ) (t : Transfer M)
      → t.aborted ≡ false
      → let t' = store_words memory xs t in
        store_words memory (xs ++ ys) t ≡ (if t'.aborted then t' else store_words memory ys t')
  unfolding store_words
  store_words-append [] ys t h = sym (if_false t.aborted _ _ h)
  store_words-append (x ∷ xs) ys t h =
      let r : Bool × M = memory.dato (t.ma % 2 ^ 18) x t.mem in
      elim (Bool-cases r.0) [
        | inl e ↦ rw e (store_words-append xs ys (stepped memory r.1 t) h)
        | inr e ↦ rw e refl
      ]

  pub compare_words-missing :
      (x : ℕ) (xs : List ℕ) (t : Transfer M)
      → let r = memory.dati (t.ma % 2 ^ 18) t.mem in
        r.0 ≡ none → compare_words memory (x ∷ xs) t ≡ failed memory rlcs_nxm r.1 t
  unfolding compare_words
  compare_words-missing x xs t e = rw (compare_words, e) refl

  pub compare_words-answered :
      (x word : ℕ) (xs : List ℕ) (t : Transfer M)
      → let r = memory.dati (t.ma % 2 ^ 18) t.mem in
        r.0 ≡ some word
        → compare_words memory (x ∷ xs) t ≡ (
            if x == word
            then compare_words memory xs (stepped memory r.1 t)
            else failed memory rlcs_crc r.1 t)
  unfolding compare_words
  compare_words-answered x word xs t e = rw (compare_words, e) refl

  compare_words-append :
      (xs ys : List ℕ) (t : Transfer M)
      → t.aborted ≡ false
      → let t' = compare_words memory xs t in
        compare_words memory (xs ++ ys) t ≡ (if t'.aborted then t' else compare_words memory ys t')
  unfolding compare_words
  compare_words-append [] ys t h = sym (if_false t.aborted _ _ h)
  compare_words-append (x ∷ xs) ys t h =
      let r : Option ℕ × M = memory.dati (t.ma % 2 ^ 18) t.mem in
      elim (Option-cases r.0) [
        | inl e ↦ rw (compare_words-missing x (xs ++ ys) t e, compare_words-missing x xs t e) refl
        | inr (word, e) ↦
            rw (compare_words-answered x word (xs ++ ys) t e, compare_words-answered x word xs t e)
              (elim (Bool-cases (x == word)) [
                | inl same ↦ rw same (compare_words-append xs ys (stepped memory r.1 t) h)
                | inr other ↦ rw other refl
              ])
      ]

  use_words-append :
      (wchk : Bool) (xs ys : List ℕ) (t : Transfer M)
      → t.aborted ≡ false
      → let t' = use_words memory wchk xs t in
        use_words memory wchk (xs ++ ys) t
        ≡ (if t'.aborted then t' else use_words memory wchk ys t')
  unfolding use_words
  use_words-append true xs ys t h = compare_words-append xs ys t h
  use_words-append false xs ys t h = store_words-append xs ys t h

  use_words-none : (wchk : Bool) (t : Transfer M) → use_words memory wchk [] t ≡ t
  unfolding use_words store_words compare_words
  use_words-none true t = refl
  use_words-none false t = refl

  -- What stops a part stops the whole.
  use_words-part :
      (wchk : Bool) (xs ys : List ℕ) (t : Transfer M)
      → t.aborted ≡ false
      → (use_words memory wchk (xs ++ ys) t).aborted ≡ false
      → let t' = use_words memory wchk xs t in
        (t'.aborted ≡ false) × (use_words memory wchk (xs ++ ys) t ≡ use_words memory wchk ys t')
  use_words-part wchk xs ys t a h =
      let t' : Transfer M = use_words memory wchk xs t in
      let next : use_words memory wchk (xs ++ ys) t
          ≡ (if t'.aborted then t' else use_words memory wchk ys t') =
        use_words-append wchk xs ys t a in
      elim (Bool-cases t'.aborted) [
        | inl up ↦ absurd (
            ground
              (arith, up, h, ap (λ (t : Transfer M). t.aborted) (next ∙ if_true t'.aborted _ _ up)))
        | inr down ↦ (down, next ∙ if_false t'.aborted _ _ down)
      ]

  pub pair :
      {n n' : ℕ} {t t' : Transfer M} → n ≡ n' → t ≡ t' → ◌≡◌ {A = ℕ × Transfer M} (n, t) (n', t')
  pair p q = ap₂ (λ n t. (n, t)) p q

  nothing :
      (wchk : Bool) (done left : ℕ) (file : List ℕ) (t : Transfer M)
      → left ≡ 0
      → ◌≡◌ {A = ℕ × Transfer M} (done, t) (done + left, use_words memory wchk (words left file) t)
  nothing wchk done left file t e = rw e (pair (omega arith) (sym (use_words-none wchk t)))

  -- The loop of a read or of a write check over buffers of a sector, from any point of it, where
  -- the file has the words and nothing stops the transfer, is one pass over all the words.
  pub read_loop-once :
      (fuel : ℕ) (wchk : Bool) (done left : ℕ) (file : List ℕ) (t : Transfer M)
      → left ≤ fuel
      → left * 2 ≤ length file
      → t.aborted ≡ false
      → let whole = use_words memory wchk (words left file) t in
        whole.aborted ≡ false → read_loop memory fuel wchk done left file t ≡ (done + left, whole)
  unfolding read_loop
  read_loop-once zero wchk done zero file t h long a up = nothing wchk done 0 file t refl
  read_loop-once zero wchk done (suc left) file t h long a up = absurd (omega arith)
  read_loop-once (suc fuel) wchk done left file t h long a up =
      let n : ℕ = chunk left in
      let buf : List ℕ = words n file in
      let got : ℕ = length buf in
      let t' : Transfer M = use_words memory wchk buf t in
      let small : n ≤ left = ground arith in
      let all : got ≡ n = words-full n file (omega arith) in
      let rest : List ℕ = words (left - got) (drop (got * 2) file) in
      let split : words left file ≡ buf ++ rest = words-split n left file small in
      let parts : (t'.aborted ≡ false)
          × (use_words memory wchk (buf ++ rest) t ≡ use_words memory wchk rest t') =
        use_words-part wchk buf rest t a (rw split at up) in
      elim (Bool-cases (left == 0)) [
        | inl e ↦ if_true (left == 0) _ _ e ∙ nothing wchk done left file t ((==_iff left 0).0 e)
        | inr e ↦
            if_false (left == 0) _ _ e
            ∙ if_false (got == 0) _ _ (ground (arith, e, all))
            ∙ if_false t'.aborted _ _ parts.0
            ∙ read_loop-once fuel wchk (done + got) (left - got) (drop (got * 2) file) t'
                (ground (arith, e, all)) (omega (arith, all, length-drop (got * 2) file)) parts.0
                (rw (sym parts.1, sym split) up)
            ∙ pair (omega (arith, all, small))
                (sym parts.1 ∙ ap (λ ws. use_words memory wchk ws t) (sym split))
      ]
