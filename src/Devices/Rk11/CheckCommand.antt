-- ===== src/Devices/Rk11/CheckCommand.antt =====
-- The write check of the RK11 where the file of the drive holds the words (`rk05_go` of
-- pdp11/rk11/rk11.c).
use ll.Prelude.{
  ℕ, zero, suc, ◌+◌, ◌-◌, ◌*◌, ◌/◌, ◌%◌, ◌^◌, ◌≤◌, ◌<◌, ◌≡◌, refl, sym, ap, ◌∙◌, arith, Bool, true,
  false, ◌&&◌, ◌||◌, Option, none, some, List, [], ◌∷◌, ◌++◌, ◌==◌, if◌then◌else◌, length, drop,
  bit_or, if_false, if_true, Bool-cases, Option-cases, inl, inr,
}
use ll.Kd11ea.Int.{IntController}
use ll.Devices.Rk11.{
  Rk05, Drive, rk_numwd, rk_numsc, rk_numcy, rker_wce, da_drive, da_sect, da_cyl, da_to_sector,
  word_count,
}
use ll.Devices.Rk11.Reach.{ready, reaches}
use ll.Devices.Rk11.ReadCommand.{start}
use ll.Devices.Rk11.Reading.{words-split}
use ll.Devices.Rk11.Transfer.{
  Memory, Transfer, words, chunk, missing, stepped, compare_words, check_loop, finish, command,
  rk05_go,
}

-- A file that holds that many words.
pub words-full : (n : ℕ) (file : List ℕ) → n * 2 ≤ length file → length (words n file) ≡ n
words-full zero file h = refl
words-full (suc n) [] h = absurd (omega arith)
words-full (suc n) (a ∷ []) h = absurd (omega arith)
words-full (suc n) (a ∷ b ∷ rest) h = ap suc (words-full n rest (omega arith))

pub length-drop : (n : ℕ) (file : List ℕ) → length (drop n file) ≡ length file - n
length-drop zero file = omega arith
length-drop (suc n) [] = omega arith
length-drop (suc n) (a ∷ rest) = omega (arith, length-drop n rest)

not_write : (f : ℕ) (b : Bool) → f ≡ 3 → b && (f == 1 || f == 7) ≡ false
not_write f true h = ground (arith, h)
not_write f false h = refl

module _ {M : Type 0} (memory : Memory M) where
  -- The transfer after a word that memory answered.
  compared : ℕ → ℕ → M → Transfer M → Transfer M
  compared word x m t =
      stepped memory m
        (record t { errors = if word == x then t.errors else bit_or t.errors rker_wce })

  compare_words-missing :
      (x : ℕ) (xs : List ℕ) (t : Transfer M)
      → let r = memory.dati (t.ma % 2 ^ 18) t.mem in
        r.0 ≡ none → compare_words memory (x ∷ xs) t ≡ missing memory r.1 t
  unfolding compare_words
  compare_words-missing x xs t e = rw (compare_words, e) refl

  compare_words-answered :
      (x word : ℕ) (xs : List ℕ) (t : Transfer M)
      → let r = memory.dati (t.ma % 2 ^ 18) t.mem in
        r.0 ≡ some word
        → compare_words memory (x ∷ xs) t ≡ compare_words memory xs (compared word x r.1 t)
  unfolding compare_words compared
  compare_words-answered x word xs t e = rw (compare_words, e) refl

  compare_words-append :
      (xs ys : List ℕ) (t : Transfer M)
      → t.aborted ≡ false
      → let t' = compare_words memory xs t in
        compare_words memory (xs ++ ys) t ≡ (if t'.aborted then t' else compare_words memory ys t')
  unfolding compare_words compared
  compare_words-append [] ys t h = sym (if_false t.aborted _ _ h)
  compare_words-append (x ∷ xs) ys t h =
      let r : Option ℕ × M = memory.dati (t.ma % 2 ^ 18) t.mem in
      elim (Option-cases r.0) [
        | inl e ↦ rw (compare_words-missing x (xs ++ ys) t e, compare_words-missing x xs t e) refl
        | inr (word, e) ↦
            rw (compare_words-answered x word (xs ++ ys) t e, compare_words-answered x word xs t e)
              (compare_words-append xs ys (compared word x r.1 t) h)
      ]

  none_left :
      (left : ℕ) (file : List ℕ) (t : Transfer M)
      → left ≡ 0
      → t ≡ compare_words memory (words left file) t
  unfolding compare_words
  none_left left file t e = rw e refl

  -- With the words on the disk and enough fuel the loop of a write check ends, and its outcome is
  -- that of one comparison of all the words.
  check_loop-once :
      (fuel left : ℕ) (file : List ℕ) (t : Transfer M)
      → left ≤ fuel
      → left * 2 ≤ length file
      → t.aborted ≡ false
      → check_loop memory fuel left file t ≡ some (compare_words memory (words left file) t)
  unfolding check_loop compare_words
  check_loop-once zero left file t h long a =
      if_true (left == 0) _ _ (ground (arith, h)) ∙ ap some (none_left left file t (omega arith))
  check_loop-once (suc fuel) left file t h long a =
      let n : ℕ = chunk left in
      let got : ℕ = length (words n file) in
      let t' : Transfer M = compare_words memory (words n file) t in
      let small : n ≤ left = ground arith in
      let all : got ≡ n = words-full n file (omega arith) in
      let next : compare_words memory (words left file) t ≡ (
          if t'.aborted
          then t'
          else compare_words memory (words (left - got) (drop (got * 2) file)) t') =
        rw (words-split n left file small) (compare_words-append (words n file) _ t a) in
      elim (Bool-cases (left == 0)) [
        | inl e ↦ if_true (left == 0) _ _ e ∙ ap some (none_left left file t (ground (arith, e)))
        | inr e ↦ if_false (left == 0) _ _ e ∙ elim (Bool-cases t'.aborted) [
          | inl up ↦ if_true t'.aborted _ _ up ∙ ap some (sym (next ∙ if_true t'.aborted _ _ up))
          | inr down ↦
              if_false t'.aborted _ _ down
              ∙ check_loop-once fuel (left - got) (drop (got * 2) file) t' (ground (arith, e, all))
                  (omega (arith, length-drop (got * 2) file)) down
              ∙ ap some (sym (next ∙ if_false t'.aborted _ _ down))
        ]
      ]

  command-check :
      (fuel func : ℕ) (rk : Rk05) (d : Drive) (ic : IntController) (m : M)
      → func ≡ 3
      → let sector = da_to_sector rk.rkda in
        let wc = word_count rk.rkwc in
        wc ≤ fuel
        → sector * rk_numwd * 2 + wc * 2 ≤ length d.bytes
        → command memory fuel func rk d ic m
          ≡ some (
              finish memory rk wc sector
                (compare_words memory
                  (words wc (drop (sector * rk_numwd * 2) d.bytes))
                  (start rk m))
                ic)
  unfolding command
  command-check fuel func rk d ic m is enough long =
      let sector : ℕ = da_to_sector rk.rkda in
      let wc : ℕ = word_count rk.rkwc in
      let file : List ℕ = drop (sector * rk_numwd * 2) d.bytes in
      let rest : length file ≡ length d.bytes - sector * rk_numwd * 2 =
        length-drop (sector * rk_numwd * 2) d.bytes in
      rw is (
        ap
          (λ (r : Option (Transfer M)). elim r [
            | none ↦ none
            | some t ↦ some (finish memory rk wc sector t ic)
          ])
          (check_loop-once fuel wc file (start rk m) enough (omega (arith, rest, long)) refl))

  -- A write check of a valid sector whose words are all in the file of the drive ends within as
  -- many rounds as words, with what one comparison of all the words with memory finds.
  pub rk05_go-check :
      (fuel : ℕ) (rk : Rk05) (d : Drive) (ic : IntController) (m : M)
      → rk.rkcs / 2 % 8 ≡ 3
      → rk.disk (da_drive rk.rkda) ≡ some d
      → da_sect rk.rkda < rk_numsc
      → da_cyl rk.rkda < rk_numcy
      → let sector = da_to_sector rk.rkda in
        let wc = word_count rk.rkwc in
        wc ≤ fuel
        → sector * rk_numwd * 2 + wc * 2 ≤ length d.bytes
        → rk05_go memory fuel rk ic m
          ≡ some (
              finish memory
                (ready rk)
                wc
                sector
                (compare_words memory
                  (words wc (drop (sector * rk_numwd * 2) d.bytes))
                  (start (ready rk) m))
                ic)
  rk05_go-check fuel rk d ic m func found sect cyl enough long =
      reaches memory fuel rk d ic m (ground (arith, func))
        (not_write (rk.rkcs / 2 % 8) d.read_only func) found sect cyl
      ∙ command-check fuel (rk.rkcs / 2 % 8) (ready rk) d ic m func enough long
