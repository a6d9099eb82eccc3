-- ===== src/Devices/Rk11/Reading.antt =====
-- The data of a read of the RK11 (`rk05_go` of pdp11/rk11/rk11.c): the buffers of a sector each
-- against one pass over the words of the file.
use ll.Prelude.{
  ℕ, zero, suc, ◌+◌, ◌-◌, ◌*◌, ◌%◌, ◌^◌, ◌≤◌, ◌≡◌, ◌≢◌, refl, sym, ◌∙◌, ap, arith, Bool, true,
  false, List, [], ◌∷◌, ◌++◌, ◌==◌, ltb, if◌then◌else◌, if_true, if_false, length, drop, bit_or,
  Bool-cases, inl, inr,
}
use ll.Devices.Rk11.{rker_ovr}
use ll.Devices.Rk11.Transfer.{Memory, Transfer, words, chunk, stepped, store_words, read_loop}

words-empty : (n : ℕ) → words n [] ≡ []
words-empty zero = refl
words-empty (suc n) = refl

words-single : (n a : ℕ) → words n (a ∷ []) ≡ []
words-single zero a = refl
words-single (suc n) a = refl

pub words-split :
    (n left : ℕ) (file : List ℕ)
    → n ≤ left
    → words left file
      ≡ words n file ++ words (left - length (words n file)) (drop (length (words n file) * 2) file)
words-split zero left file h = ap (λ l. words l file) (omega arith)
words-split (suc n) zero file h = absurd (omega arith)
words-split (suc n) (suc left) [] h = sym (words-empty (suc left - 0))
words-split (suc n) (suc left) (a ∷ []) h = sym (words-single (suc left - 0) a)
words-split (suc n) (suc left) (a ∷ b ∷ rest) h =
    let got : ℕ = length (words n rest) in
    let fewer : suc left - suc got ≡ left - got = omega arith in
    let further : suc got * 2 ≡ suc (suc (got * 2)) = omega arith in
    rw (fewer, further)
      (ap (◌∷◌ (a % 2 ^ 8 + b % 2 ^ 8 * 2 ^ 8)) (words-split n left rest (omega arith)))

words-none : (n m : ℕ) (file : List ℕ) → n ≢ 0 → length (words n file) ≡ 0 → words m file ≡ []
words-none zero m file h e = absurd (h refl)
words-none (suc n) zero file h e = refl
words-none (suc n) (suc m) [] h e = refl
words-none (suc n) (suc m) (a ∷ []) h e = refl
words-none (suc n) (suc m) (a ∷ b ∷ rest) h e = absurd (omega arith)

pub length-append : (xs ys : List ℕ) → length (xs ++ ys) ≡ length xs + length ys
length-append [] ys = omega arith
length-append (x ∷ xs) ys = omega (arith, length-append xs ys)

ltb-less : (a b c : ℕ) → a ≤ c → ltb (a + b) c ≡ ltb b (c - a)
ltb-less a b c h = ground arith

length-words : (n : ℕ) (file : List ℕ) → length (words n file) ≤ n
length-words zero file = omega arith
length-words (suc n) [] = omega arith
length-words (suc n) (a ∷ []) = omega arith
length-words (suc n) (a ∷ b ∷ rest) = omega (arith, length-words n rest)

-- A transfer that ran out of words before the count did.
pub ran_out : {M : Type 0} → Transfer M → Transfer M
ran_out t = record t { errors = bit_or t.errors rker_ovr }

module _ {M : Type 0} (memory : Memory M) where
  -- The read in one pass.
  pub read_once : ℕ → List ℕ → Transfer M → Transfer M
  read_once wc file t =
      let ws = words wc file in
      let t' = store_words memory ws t in
      if t'.aborted then t' else if ltb (length ws) wc then ran_out t' else t'

  store_words-append :
      (xs ys : List ℕ) (t : Transfer M)
      → t.aborted ≡ false
      → let t' = store_words memory xs t in
        store_words memory (xs ++ ys) t ≡ (if t'.aborted then t' else store_words memory ys t')
  unfolding store_words
  store_words-append [] ys t h = sym (if_false t.aborted _ _ h)
  store_words-append (x ∷ xs) ys t h =
      let r : Bool × M = memory.dato (t.ma % 2 ^ 18) x t.mem in
      elim (Bool-cases r.0) [
        | inl e ↦ rw e (store_words-append xs ys (stepped memory r.1 t) h)
        | inr e ↦ rw e refl
      ]

  read_once-step :
      (n wc : ℕ) (file : List ℕ) (t : Transfer M)
      → n ≤ wc
      → t.aborted ≡ false
      → let got = length (words n file) in
        let t' = store_words memory (words n file) t in
        read_once wc file t
        ≡ (if t'.aborted then t' else read_once (wc - got) (drop (got * 2) file) t')
  unfolding read_once
  read_once-step n wc file t h a =
      let buf : List ℕ = words n file in
      let t' : Transfer M = store_words memory buf t in
      let rest : List ℕ = words (wc - length buf) (drop (length buf * 2) file) in
      let fewer : ltb (length buf + length rest) wc ≡ ltb (length rest) (wc - length buf) =
        ltb-less (length buf) (length rest) wc (omega (arith, length-words n file)) in
      elim (Bool-cases t'.aborted) [
        | inl e ↦ rw (words-split n wc file h, store_words-append buf rest t a, e) refl
        | inr e ↦
            rw
              (
                words-split n wc file h,
                store_words-append buf rest t a,
                length-append buf rest,
                fewer,
                e,
              )
              refl
      ]

  read_once-none :
      (n wc : ℕ) (file : List ℕ) (t : Transfer M)
      → n ≢ 0
      → wc ≢ 0
      → length (words n file) ≡ 0
      → t.aborted ≡ false
      → read_once wc file t ≡ ran_out t
  unfolding read_once store_words
  read_once-none n wc file t h some_left e a =
      rw (words-none n wc file h e)
        (if_false t.aborted _ _ a ∙ if_true (ltb 0 wc) _ _ (ground (arith, some_left)))

  read_once-zero :
      (wc : ℕ) (file : List ℕ) (t : Transfer M)
      → wc ≡ 0
      → t.aborted ≡ false
      → read_once wc file t ≡ t
  unfolding read_once store_words
  read_once-zero wc file t e a = rw e (if_false t.aborted _ _ a)

  -- The loop of a read over buffers of a sector, from any point of it and with at least as much
  -- fuel as words are left, does to memory and to the errors what one pass over the words of the
  -- file does: it stops where memory does not answer, and a file that runs out first is an
  -- overrun.
  pub read_loop-once :
      (fuel left : ℕ) (file : List ℕ) (t : Transfer M)
      → left ≤ fuel
      → t.aborted ≡ false
      → read_loop memory fuel true left file t ≡ read_once left file t
  unfolding read_loop ran_out
  read_loop-once zero left file t h a = sym (read_once-zero left file t (omega arith) a)
  read_loop-once (suc fuel) left file t h a =
      let n : ℕ = chunk left in
      let got : ℕ = length (words n file) in
      let t' : Transfer M = store_words memory (words n file) t in
      let small : n ≤ left = ground arith in
      let next : read_once left file t
          ≡ (if t'.aborted then t' else read_once (left - got) (drop (got * 2) file) t') =
        read_once-step n left file t small a in
      elim (Bool-cases (left == 0)) [
        | inl e ↦ if_true (left == 0) _ _ e ∙ sym (read_once-zero left file t (ground (arith, e)) a)
        | inr e ↦ if_false (left == 0) _ _ e ∙ elim (Bool-cases (got == 0)) [
          | inl e' ↦
              if_true (got == 0) _ _ e'
              ∙ sym (
                  read_once-none n left file t (ground (arith, e)) (ground (arith, e))
                    (ground (arith, e')) a)
          | inr e' ↦ if_false (got == 0) _ _ e' ∙ elim (Bool-cases t'.aborted) [
            | inl up ↦ if_true t'.aborted _ _ up ∙ sym (next ∙ if_true t'.aborted _ _ up)
            | inr down ↦
                if_false t'.aborted _ _ down
                ∙ read_loop-once fuel (left - got) (drop (got * 2) file) t' (ground (arith, e, e'))
                    down
                ∙ sym (next ∙ if_false t'.aborted _ _ down)
          ]
        ]
      ]
