-- ===== src/Prelude/Seq.antt =====
-- Search in a sequence, and removal of an element by moving the last one into its place.
use mathlib.Core.List.Perm
use mathlib.Core.Path.{subst}
pub use mathlib.Core.List.{Perm}
use ll.Prelude.{
  ℕ, zero, suc, ◌-◌, ◌<◌, ◌≡◌, refl, inl, inr, Bool, true, false, Option, none, some, List, [], ◌∷◌,
  arith, if◌then◌else◌, length, get_elem?, set, length, length-set, Bool-cases, Option-cases,
}

module _ {ℓ} {A : Type ℓ} where
  -- The first index at which the test holds.
  unfoldable pub find_index : (A → Bool) → List A → Option ℕ
  find_index p [] = none
  find_index p (x ∷ xs) =
      if p x then some 0 else elim (find_index p xs) [ none ↦ none | some i ↦ some (suc i) ]

  unfoldable pub last_or : List A → A → A
  last_or [] d = d
  last_or (x ∷ xs) d = last_or xs x

  unfoldable pub drop_last : List A → List A
  drop_last [] = []
  drop_last (x ∷ []) = []
  drop_last (x ∷ y ∷ ys) = x ∷ drop_last (y ∷ ys)

  -- `queue[i] = queue[count - 1]; count--`, where `x` is `queue[i]`.
  unfoldable pub swap_out : List A → ℕ → A → List A
  unfolding last_or drop_last
  swap_out xs i x = drop_last (set xs i (last_or xs x))

  -- What a search finds: the first element that passes, with its index.
  pub record Found (p : A → Bool) (xs : List A) (i : ℕ) : Type ℓ where
    pub item : A
    pub at : get_elem? xs i ≡ some item
    pub passes : p item ≡ true
    pub first : (j : ℕ) (y : A) → j < i → get_elem? xs j ≡ some y → p y ≡ false

  Found-here : (p : A → Bool) (x : A) (xs : List A) → p x ≡ true → Found p (x ∷ xs) 0
  Found-here p x xs hit = record {
    item = x;
    at = refl;
    passes = hit;
    first = λ j y lt _. absurd (omega arith);
  }

  earlier :
      (p : A → Bool) (x : A) (xs : List A) (i : ℕ)
      → p x ≡ false
      → ((j : ℕ) (y : A) → j < i → get_elem? xs j ≡ some y → p y ≡ false)
      → (j : ℕ) (y : A) → j < suc i
      → get_elem? (x ∷ xs) j ≡ some y
      → p y ≡ false
  earlier p x xs i miss first zero y lt at = ground arith
  earlier p x xs i miss first (suc j) y lt at = first j y (omega arith) at

  Found-there :
      (p : A → Bool) (x : A) (xs : List A) (i : ℕ)
      → p x ≡ false
      → Found p xs i
      → Found p (x ∷ xs) (suc i)
  Found-there p x xs i miss f = record {
    item = f.item;
    at = f.at;
    passes = f.passes;
    first = earlier p x xs i miss f.first;
  }

  pub find_index-Found :
      (p : A → Bool) (xs : List A) (i : ℕ) → find_index p xs ≡ some i → Found p xs i
  unfolding find_index
  find_index-Found p [] i e = absurd (cc)
  find_index-Found p (x ∷ xs) i e = elim (Bool-cases (p x)) [
    | inl hit ↦
        let zero-eq : 0 ≡ i = ground arith in
        subst (Found p (x ∷ xs)) zero-eq (Found-here p x xs hit)
    | inr miss ↦ elim (Option-cases (find_index p xs)) [
      | inl out ↦ absurd (ground arith)
      | inr (k, in_rest) ↦
          let suc-eq : suc k ≡ i = ground arith in
          subst (Found p (x ∷ xs)) suc-eq
            (Found-there p x xs k miss (find_index-Found p xs k in_rest))
    ]
  ]

  pub find_index-none :
      (p : A → Bool) (xs : List A) (j : ℕ) (y : A)
      → find_index p xs ≡ none
      → get_elem? xs j ≡ some y
      → p y ≡ false
  unfolding find_index
  find_index-none p [] j y e h = cc
  find_index-none p (x ∷ xs) zero y e h = ground arith
  find_index-none p (x ∷ xs) (suc j) y e h = ground (arith, find_index-none p xs j y)

  last-drop_last : (x : A) (xs : List A) → Perm (last_or xs x ∷ drop_last (x ∷ xs)) (x ∷ xs)
  unfolding last_or drop_last
  last-drop_last x [] = Perm.refl _
  last-drop_last x (y ∷ ys) =
      Perm.trans (Perm.swap x (last_or ys y) (drop_last (y ∷ ys)))
        (Perm.cons x (last-drop_last y ys))

  pub swap_out-perm :
      (xs : List A) (i : ℕ) (x d : A) → get_elem? xs i ≡ some x → Perm (x ∷ swap_out xs i d) xs
  unfolding swap_out drop_last last_or
  swap_out-perm [] i x d h = cc
  swap_out-perm (y ∷ []) zero x d h = Perm.cons' (ground arith) Perm.nil
  swap_out-perm (y ∷ []) (suc i) x d h = cc
  swap_out-perm (y ∷ z ∷ zs) zero x d h = Perm.cons' (ground arith) (last-drop_last z zs)
  swap_out-perm (y ∷ z ∷ zs) (suc zero) x d h =
      Perm.trans (Perm.swap y x _) (Perm.cons y (swap_out-perm (z ∷ zs) zero x y h))
  swap_out-perm (y ∷ z ∷ zs) (suc (suc i)) x d h =
      Perm.trans (Perm.swap y x _) (Perm.cons y (swap_out-perm (z ∷ zs) (suc i) x y h))

  length-drop_last : (xs : List A) → length (drop_last xs) ≡ length xs - 1
  unfolding drop_last
  length-drop_last [] = omega arith
  length-drop_last (x ∷ []) = omega arith
  length-drop_last (x ∷ y ∷ ys) = omega (arith, length-drop_last (y ∷ ys))

  pub length-swap_out : (xs : List A) (i : ℕ) (d : A) → length (swap_out xs i d) ≡ length xs - 1
  unfolding swap_out
  length-swap_out xs i d =
      omega (arith, length-drop_last (set xs i (last_or xs d)), length-set xs i (last_or xs d))

  -- An index that finds something lies within the sequence.
  pub lt_length_of_get_elem? :
      (xs : List A) (i : ℕ) (x : A) → get_elem? xs i ≡ some x → i < length xs
  lt_length_of_get_elem? [] i x h = cc
  lt_length_of_get_elem? (y ∷ ys) zero x h = omega arith
  lt_length_of_get_elem? (y ∷ ys) (suc i) x h = omega (arith, lt_length_of_get_elem? ys i x h)
