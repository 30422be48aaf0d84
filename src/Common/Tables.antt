-- ===== src/Common/Tables.antt =====
-- Tables as lists of rows, and what a query or a deletion does to the number of rows of a kind.
use sens.Common.{
  ℕ, zero, suc, ◌+◌, ◌-◌, ◌≤◌, ◌≡◌, refl, sym, ap, ◌∙◌, Bool, true, not, ◌&&◌, List, [], ◌∷◌, ◌++◌,
  arith, if◌then◌else◌, length,
}

module _ {ℓ} {A : Type ℓ} where
  -- The rows that pass a test, counted.
  unfoldable pub count : (A → Bool) → List A → ℕ
  count f [] = 0
  count f (x ∷ xs) = (if f x then 1 else 0) + count f xs

  unfoldable pub all : (A → Bool) → List A → Bool
  all f [] = true
  all f (x ∷ xs) = f x && all f xs

  -- `HashMap::retain`, or what a `DELETE` leaves.
  unfoldable pub retain : (A → Bool) → List A → List A
  retain f [] = []
  retain f (x ∷ xs) = let rest = retain f xs in if f x then x ∷ rest else rest

  -- `LIMIT n`
  unfoldable pub take : ℕ → List A → List A
  take zero xs = []
  take (suc n) [] = []
  take (suc n) (x ∷ xs) = x ∷ take n xs

  unfoldable pub drop : ℕ → List A → List A
  drop zero xs = xs
  drop (suc n) [] = []
  drop (suc n) (x ∷ xs) = drop n xs

  -- Two lists with the same rows, in whichever order.
  abbrev pub SameRows : List A → List A → Type ℓ
  SameRows xs ys = (f : A → Bool) → count f xs ≡ count f ys

  -- Rows in order: each before all the later ones.
  abbrev pub IsSorted : (A → A → Bool) → List A → Type 0
  IsSorted le [] = Unit
  IsSorted le (x ∷ xs) = (all (le x) xs ≡ true) × IsSorted le xs

  pub count-append : (f : A → Bool) (xs ys : List A) → count f (xs ++ ys) ≡ count f xs + count f ys
  unfolding count
  count-append f [] ys = omega arith
  count-append f (x ∷ xs) ys = omega (arith, count-append f xs ys)

  pub count_one : (f : A → Bool) (x : A) → count f (x ∷ []) ≡ (if f x then 1 else 0)
  unfolding count
  count_one f x = omega arith

  pub count-true : (xs : List A) → count (λ x. true) xs ≡ length xs
  unfolding count
  count-true [] = refl
  count-true (x ∷ xs) = omega (arith, count-true xs)

  pub count_ext :
      (f g : A → Bool) (xs : List A)
      → all (λ x. if f x then g x else not (g x)) xs ≡ true
      → count f xs ≡ count g xs
  unfolding count all
  count_ext f g [] h = refl
  count_ext f g (x ∷ xs) h = ground (arith, count_ext f g xs)

  pub all_of : (f : A → Bool) (xs : List A) → ((x : A) → f x ≡ true) → all f xs ≡ true
  unfolding all
  all_of f [] h = refl
  all_of f (x ∷ xs) h = ground (arith, h x, all_of f xs h)

  pub all_mono :
      (f g : A → Bool) (xs : List A)
      → all f xs ≡ true
      → ((x : A) → f x ≡ true → g x ≡ true)
      → all g xs ≡ true
  unfolding all
  all_mono f g [] h mono = refl
  all_mono f g (x ∷ xs) h mono = ground (arith, mono x, all_mono f g xs)

  pub all-count : (f : A → Bool) (xs : List A) → all f xs ≡ true → count (λ x. not (f x)) xs ≡ 0
  unfolding count all
  all-count f [] h = refl
  all-count f (x ∷ xs) h = ground (arith, all-count f xs)

  pub count-all : (f : A → Bool) (xs : List A) → count (λ x. not (f x)) xs ≡ 0 → all f xs ≡ true
  unfolding count all
  count-all f [] h = refl
  count-all f (x ∷ xs) h = ground (arith, count-all f xs)

  -- What holds of all rows holds of them in any order.
  pub all-SameRows :
      (f : A → Bool) (xs ys : List A) → SameRows xs ys → all f xs ≡ true → all f ys ≡ true
  all-SameRows f xs ys same h = count-all f ys (sym (same (λ x. not (f x))) ∙ all-count f xs h)

  pub length-SameRows : (xs ys : List A) → SameRows xs ys → length xs ≡ length ys
  length-SameRows xs ys same = sym (count-true xs) ∙ same (λ x. true) ∙ count-true ys

  pub count-retain :
      (f g : A → Bool) (xs : List A) → count f (retain g xs) ≡ count (λ x. f x && g x) xs
  unfolding count retain
  count-retain f g [] = refl
  count-retain f g (x ∷ xs) = ground (arith, count-retain f g xs)

  pub retain-SameRows :
      (g : A → Bool) (xs ys : List A) → SameRows xs ys → SameRows (retain g xs) (retain g ys)
  retain-SameRows g xs ys same f =
      count-retain f g xs ∙ same (λ x. f x && g x) ∙ sym (count-retain f g ys)

  pub count-retain_le : (f g : A → Bool) (xs : List A) → count f (retain g xs) ≤ count f xs
  unfolding count retain
  count-retain_le f g [] = omega arith
  count-retain_le f g (x ∷ xs) = ground (arith, count-retain_le f g xs)

  pub count-drop_le : (f : A → Bool) (n : ℕ) (xs : List A) → count f (drop n xs) ≤ count f xs
  unfolding count drop
  count-drop_le f zero xs = omega arith
  count-drop_le f (suc n) [] = omega arith
  count-drop_le f (suc n) (x ∷ xs) = ground (arith, count-drop_le f n xs)

  pub length-retain_le : (g : A → Bool) (xs : List A) → length (retain g xs) ≤ length xs
  unfolding retain
  length-retain_le g [] = omega arith
  length-retain_le g (x ∷ xs) = ground (arith, length-retain_le g xs)

  pub length-drop : (n : ℕ) (xs : List A) → length (drop n xs) ≡ length xs - n
  unfolding drop
  length-drop zero xs = omega arith
  length-drop (suc n) [] = omega arith
  length-drop (suc n) (x ∷ xs) = omega (arith, length-drop n xs)

  pub take-append-drop : (n : ℕ) (xs : List A) → take n xs ++ drop n xs ≡ xs
  unfolding take drop
  take-append-drop zero xs = refl
  take-append-drop (suc n) [] = refl
  take-append-drop (suc n) (x ∷ xs) = ap (◌∷◌ x) (take-append-drop n xs)

  pub retain_all : (g : A → Bool) (xs : List A) → all g xs ≡ true → retain g xs ≡ xs
  unfolding retain all
  retain_all g [] h = refl
  retain_all g (x ∷ xs) h = ground (arith, retain_all g xs)

  pub all-retain : (f g : A → Bool) (xs : List A) → all f xs ≡ true → all f (retain g xs) ≡ true
  unfolding retain all
  all-retain f g [] h = refl
  all-retain f g (x ∷ xs) h = ground (arith, all-retain f g xs)

  pub count_mono :
      (f g : A → Bool) (xs : List A) → ((x : A) → f x ≡ true → g x ≡ true) → count f xs ≤ count g xs
  unfolding count
  count_mono f g [] mono = omega arith
  count_mono f g (x ∷ xs) mono = ground (arith, mono x, count_mono f g xs mono)

  pub count_of_all : (f : A → Bool) (xs : List A) → all f xs ≡ true → count f xs ≡ length xs
  unfolding count all
  count_of_all f [] h = refl
  count_of_all f (x ∷ xs) h = ground (arith, count_of_all f xs)
