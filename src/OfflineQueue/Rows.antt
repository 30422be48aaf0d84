-- ===== src/OfflineQueue/Rows.antt =====
-- The rows that a deletion in src/offline_queue.rs leaves of a table whose ids are unique.
use sens.Common.{
  ℕ, zero, suc, ◌≤◌, ◌<◌, ◌≡◌, refl, sym, ap, ◌∙◌, ◌⊎◌, inl, inr, Bool, true, not, List, [], ◌∷◌,
  arith, ◌==◌,
}
use sens.Common.Tables.{
  count, all, retain, take, drop, SameRows, IsSorted, retain_all, all_of, retain-SameRows,
  all-SameRows,
}
use sens.OfflineQueue.{Row, id_in, delete_found}
use sens.OfflineQueue.Queries.{IsPreorder}

abbrev pub UniqueIds : List Row → Type 0
UniqueIds rows = (i : ℕ) → count (λ r. r.id == i) rows ≤ 1

-- The row is in the table: it is counted wherever it passes the test.
abbrev pub IsIn : Row → List Row → Type 0
IsIn row rows = (f : Row → Bool) → f row ≡ true → 0 < count f rows

delete_absent :
    (x : Row) (found rows : List Row)
    → count (λ r. r.id == x.id) rows ≡ 0
    → delete_found (x ∷ found) rows ≡ delete_found found rows
unfolding delete_found id_in count retain
delete_absent x found [] absent = refl
delete_absent x found (r ∷ rows) absent = ground (arith, delete_absent x found rows)

head_absent : (x : Row) (xs : List Row) → UniqueIds (x ∷ xs) → count (λ r. r.id == x.id) xs ≡ 0
unfolding count
head_absent x xs unique = ground (arith, unique x.id)

UniqueIds-tail : (x : Row) (xs : List Row) → UniqueIds (x ∷ xs) → UniqueIds xs
unfolding count
UniqueIds-tail x xs unique i = ground (arith, unique i)

delete_first :
    (x : Row) (found xs : List Row)
    → UniqueIds (x ∷ xs)
    → delete_found (x ∷ found) (x ∷ xs) ≡ delete_found found xs
unfolding delete_found id_in retain
delete_first x found xs unique = ground (arith, delete_absent x found xs (head_absent x xs unique))

delete_prefix : (n : ℕ) (xs : List Row) → UniqueIds xs → delete_found (take n xs) xs ≡ drop n xs
unfolding take drop
delete_prefix zero xs unique =
    unfold delete_found id_in in retain_all (λ r. true) xs (all_of (λ r. true) xs (λ r. refl))
delete_prefix (suc n) [] unique = unfold delete_found id_in retain in refl
delete_prefix (suc n) (x ∷ xs) unique =
    delete_first x (take n xs) xs unique ∙ delete_prefix n xs (UniqueIds-tail x xs unique)

pub UniqueIds-SameRows : (xs ys : List Row) → SameRows xs ys → UniqueIds ys → UniqueIds xs
UniqueIds-SameRows xs ys same unique i = omega (arith, unique i, same (λ r. r.id == i))

-- To delete what a query found first leaves the rows after them.
pub delete_first_found :
    (n : ℕ) (found rows : List Row)
    → SameRows found rows
    → UniqueIds rows
    → SameRows (delete_found (take n found) rows) (drop n found)
unfolding delete_found
delete_first_found n found rows same unique f =
    retain-SameRows _ rows found (λ g. sym (same g)) f
    ∙ ap (count f) (delete_prefix n found (UniqueIds-SameRows found rows same unique))

pub delete_one :
    (x : Row) (rows : List Row) → delete_found (x ∷ []) rows ≡ retain (λ r. not (r.id == x.id)) rows
unfolding delete_found id_in retain
delete_one x [] = refl
delete_one x (r ∷ rows) = ground (arith, delete_one x rows)

-- Deletion of the first that a query found, by its id, leaves the others.
pub SameRows-others :
    (x : Row) (rest rows : List Row)
    → UniqueIds rows
    → SameRows (x ∷ rest) rows
    → SameRows rest (retain (λ r. not (r.id == x.id)) rows)
unfolding take drop
SameRows-others x rest rows unique same f =
    sym (delete_first_found 1 (x ∷ rest) rows same unique f) ∙ ap (count f) (delete_one x rows)

-- The first of a sorted table comes before all of its rows.
pub first_before_all :
    (le : Row → Row → Bool)
    → IsPreorder le
    → (x : Row) (xs rows : List Row) → SameRows (x ∷ xs) rows
    → IsSorted le (x ∷ xs)
    → all (le x) rows ≡ true
unfolding all
first_before_all le (total, trans) x xs rows same (before, sorted) =
    all-SameRows (le x) (x ∷ xs) rows same (ground (arith, total x x))

pub first_IsIn : (x : Row) (xs rows : List Row) → SameRows (x ∷ xs) rows → IsIn x rows
unfolding count
first_IsIn x xs rows same f passes = ground (arith, same f)

-- A table that a query sorted has a first row, unless it is empty.
pub first_cases :
    (le : Row → Row → Bool) (found rows : List Row)
    → SameRows found rows
    → IsSorted le found
    → ((rows ≡ []) × (found ≡ []))
      ⊎ ((x : Row) × (rest : List Row) × (found ≡ x ∷ rest)
          × SameRows (x ∷ rest) rows
          × IsSorted le (x ∷ rest))
unfolding count
first_cases le [] [] same sorted = inl (refl, refl)
first_cases le [] (r ∷ rows) same sorted = absurd (omega (arith, same (λ x. true)))
first_cases le (x ∷ rest) rows same sorted = inr (x, rest, refl, same, sorted)

-- What holds of all rows holds of the first one and of the others.
pub all-first :
    (f : Row → Bool) (x : Row) (rest rows : List Row)
    → SameRows (x ∷ rest) rows
    → all f rows ≡ true
    → (f x ≡ true) × (all f rest ≡ true)
unfolding all
all-first f x rest rows same h =
    ground (arith, all-SameRows f rows (x ∷ rest) (λ g. sym (same g)) h)
