-- ===== src/Devices/Rk11/Check.antt =====
-- The write check of the RK11 (`rk05_go` of pdp11/rk11/rk11.c).
use ll.Prelude.{
  ℕ, zero, suc, ◌-◌, ◌*◌, ◌/◌, ◌%◌, ◌≤◌, ◌<◌, ◌≡◌, ◌≢◌, refl, ◌∙◌, arith, Bool, true, false, ◌&&◌,
  ◌||◌, Option, none, some, List, [], ◌∷◌, ◌==◌, length, drop, if_false,
}
use ll.Kd11ea.Int.{IntController}
use ll.Devices.Rk11.{
  Rk05, Drive, rk_numwd, rk_numsc, rk_numcy, da_drive, da_sect, da_cyl, da_to_sector, word_count,
}
use ll.Devices.Rk11.Reach.{ready, reaches}
use ll.Devices.Rk11.Transfer.{Memory, Transfer, words, chunk, check_loop, command, rk05_go}

drop-past : (n : ℕ) (xs : List ℕ) → length xs ≤ n → drop n xs ≡ []
drop-past zero [] h = refl
drop-past zero (x ∷ xs) h = absurd (omega arith)
drop-past (suc n) [] h = refl
drop-past (suc n) (x ∷ xs) h = drop-past n xs (omega arith)

words-nothing : (n : ℕ) → words n [] ≡ []
words-nothing zero = refl
words-nothing (suc n) = refl

word_count-positive : (wc : ℕ) → word_count wc ≢ 0
word_count-positive wc = ground arith

minus_zero : (n : ℕ) → n - 0 ≡ n
minus_zero n = omega arith

not_write : (f : ℕ) (b : Bool) → f ≡ 3 → b && (f == 1 || f == 7) ≡ false
not_write f true h = ground (arith, h)
not_write f false h = refl

module _ {M : Type 0} (memory : Memory M) where
  check_loop-nothing :
      (fuel left : ℕ) (t : Transfer M)
      → left ≢ 0
      → t.aborted ≡ false
      → check_loop memory fuel left [] t ≡ none
  unfolding check_loop
  check_loop-nothing zero left t h a = if_false (left == 0) _ _ (ground (arith, h))
  check_loop-nothing (suc fuel) left t h a =
      rw (words-nothing (chunk left), minus_zero left)
        (if_false (left == 0) _ _ (ground (arith, h))
          ∙ if_false t.aborted _ _ a
          ∙ check_loop-nothing fuel left t h a)

  check_loop-past :
      (fuel left pos : ℕ) (file : List ℕ) (t : Transfer M)
      → left ≢ 0
      → length file ≤ pos
      → t.aborted ≡ false
      → check_loop memory fuel left (drop pos file) t ≡ none
  check_loop-past fuel left pos file t h short a =
      rw (drop-past pos file short) (check_loop-nothing fuel left t h a)

  stuck :
      {X : Type 0} (r : Option (Transfer M)) (f : Transfer M → Option X)
      → r ≡ none
      → (elim r [ none ↦ none | some t ↦ f t ]) ≡ none
  stuck r f h = rw h refl

  command-never :
      (fuel func : ℕ) (rk : Rk05) (d : Drive) (ic : IntController) (m : M)
      → func ≡ 3
      → length d.bytes ≤ da_to_sector rk.rkda * rk_numwd * 2
      → command memory fuel func rk d ic m ≡ none
  unfolding command
  command-never fuel func rk d ic m is h =
      rw is (stuck _ _ (check_loop-past fuel _ _ d.bytes _ (word_count-positive rk.rkwc) h refl))

  -- A write check of a valid sector that lies past the end of the file of its drive never ends:
  -- however many steps it is given, it gives no result.
  pub rk05_go-never :
      (fuel : ℕ) (rk : Rk05) (d : Drive) (ic : IntController) (m : M)
      → rk.rkcs / 2 % 8 ≡ 3
      → rk.disk (da_drive rk.rkda) ≡ some d
      → da_sect rk.rkda < rk_numsc
      → da_cyl rk.rkda < rk_numcy
      → length d.bytes ≤ da_to_sector rk.rkda * rk_numwd * 2
      → rk05_go memory fuel rk ic m ≡ none
  unfolding rk05_go
  rk05_go-never fuel rk d ic m func found sect cyl short =
      reaches memory fuel rk d ic m (ground (arith, func))
        (not_write (rk.rkcs / 2 % 8) d.read_only func) found sect cyl
      ∙ command-never fuel (rk.rkcs / 2 % 8) (ready rk) d ic m func short
