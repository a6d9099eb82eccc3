-- ===== src/Devices/Rk11/Overwrite.antt =====
-- Writes that follow one another on a file of the RK11.
use ll.Prelude.{
  ℕ, zero, suc, ◌+◌, ◌-◌, ◌≡◌, refl, sym, ◌∙◌, ap, arith, List, [], ◌∷◌, ◌++◌, length, take, drop,
  replicate,
}
use ll.Devices.Rk11.Reading.{length-append}
use ll.Devices.Rk11.Transfer.{overwrite}

-- The same by its place in the file.
write_at : ℕ → List ℕ → List ℕ → List ℕ
write_at zero bytes file = bytes ++ drop (length bytes) file
write_at (suc pos) bytes [] = 0 ∷ write_at pos bytes []
write_at (suc pos) bytes (x ∷ file) = x ∷ write_at pos bytes file

pub zero_add : (n : ℕ) → 0 + n ≡ n
zero_add n = omega arith

pub suc_add : (m n : ℕ) → suc m + n ≡ suc (m + n)
suc_add m n = omega arith

drop-nil : (n : ℕ) → drop {A = ℕ} n [] ≡ []
drop-nil zero = refl
drop-nil (suc n) = refl

drop-drop : (m n : ℕ) (xs : List ℕ) → drop n (drop m xs) ≡ drop (m + n) xs
drop-drop zero n xs = rw (zero_add n) refl
drop-drop (suc m) n [] = rw (suc_add m n) (drop-nil n)
drop-drop (suc m) n (x ∷ xs) = rw (suc_add m n) (drop-drop m n xs)

write_at-eq : (pos : ℕ) (bytes file : List ℕ) → overwrite pos bytes file ≡ write_at pos bytes file
unfolding write_at
write_at-eq zero bytes file = rw (zero_add (length bytes)) refl
write_at-eq (suc pos) bytes [] =
    let all : suc pos - 0 ≡ suc pos = omega arith in
    let some : pos - 0 ≡ pos = omega arith in
    let before : take pos (replicate pos 0) ++ bytes ++ [] ≡ write_at pos bytes [] =
      rw (some, drop-nil (pos + length bytes)) at (write_at-eq pos bytes []) in
    rw (all, suc_add pos (length bytes)) (ap (◌∷◌ 0) before)
write_at-eq (suc pos) bytes (x ∷ file) =
    let shorter : suc pos - suc (length file) ≡ pos - length file = omega arith in
    rw (shorter, suc_add pos (length bytes)) (ap (◌∷◌ x) (write_at-eq pos bytes file))

after :
    (xs ys rest : List ℕ) → write_at (length xs) ys (xs ++ rest) ≡ xs ++ ys ++ drop (length ys) rest
unfolding write_at
after [] ys rest = refl
after (x ∷ xs) ys rest = ap (◌∷◌ x) (after xs ys rest)

write_at-twice :
    (pos : ℕ) (xs ys file : List ℕ)
    → write_at (pos + length xs) ys (write_at pos xs file) ≡ write_at pos (xs ++ ys) file
unfolding write_at
write_at-twice zero xs ys file =
    rw (zero_add (length xs), length-append xs ys)
      (after xs ys (drop (length xs) file)
        ∙ ap (λ l. xs ++ ys ++ l) (drop-drop (length xs) (length ys) file))
write_at-twice (suc pos) xs ys [] =
    rw (suc_add pos (length xs)) (ap (◌∷◌ 0) (write_at-twice pos xs ys []))
write_at-twice (suc pos) xs ys (x ∷ file) =
    rw (suc_add pos (length xs)) (ap (◌∷◌ x) (write_at-twice pos xs ys file))

-- A write at the end of another is one write of both.
pub overwrite-overwrite :
    (pos : ℕ) (xs ys file : List ℕ)
    → overwrite (pos + length xs) ys (overwrite pos xs file) ≡ overwrite pos (xs ++ ys) file
overwrite-overwrite pos xs ys file = rw (write_at-eq pos xs file) (
    write_at-eq (pos + length xs) ys (write_at pos xs file)
    ∙ write_at-twice pos xs ys file
    ∙ sym (write_at-eq pos (xs ++ ys) file))
